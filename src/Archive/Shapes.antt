-- ===== src/Archive/Shapes.antt =====
-- What `ArchivePiiAnonymizer.anonymizeValue` of services/archiveService.ts keeps and what it changes.
use quipay_backend.Prelude.{
  ℕ, ◌≡◌, refl, ap, inl, inr, Bool, true, false, ◌&&◌, ◌||◌, List, [], ◌∷◌, ◌++◌, map,
  if◌then◌else◌, Bool-cases, nat_eq, string_eq, take, any,
}
use quipay_backend.Audit.Redaction.{
  Value, null, boolean, number, string, array, object, Items, end, item, Fields, no_field, field,
  same_text,
}
use quipay_backend.Archive.Anonymizer.{
  Anonymizer, pii_field_names, mask_text, pseudonymize, fingerprint, anonymize_text,
  anonymize_value, anonymize_items, anonymize_fields,
}

pub data Kind : Type 0 where
  a_null a_boolean a_number a_string an_array an_object : Kind

abbrev kind_of : Value → Kind
kind_of null = a_null
kind_of (boolean b) = a_boolean
kind_of (number n) = a_number
kind_of (string s) = a_string
kind_of (array vs) = an_array
kind_of (object fs) = an_object

abbrev same_kind : Kind → Kind → Bool
same_kind a_null a_null = true
same_kind a_boolean a_boolean = true
same_kind a_number a_number = true
same_kind a_string a_string = true
same_kind an_array an_array = true
same_kind an_object an_object = true
same_kind _ _ = false

-- A JSON schema: what a consumer of an archived column expects of it.
mutual
  pub data Schema : Type 0 where
    anything : Schema
    of_kind : Kind → Schema
    nullable : Schema → Schema
    array_of : Schema → Schema
    object_with : FieldSchemas → Schema

  pub data FieldSchemas : Type 0 where
    no_more : FieldSchemas
    with_field : List ℕ → Schema → FieldSchemas → FieldSchemas

abbrev all_items : (Value → Bool) → Items → Bool
all_items p end = true
all_items p (item v vs) = p v && all_items p vs

abbrev is_array_of : (Value → Bool) → Value → Bool
is_array_of p (array vs) = all_items p vs
is_array_of p _ = false

abbrev is_object_with : (Fields → Bool) → Value → Bool
is_object_with p (object fs) = p fs
is_object_with p _ = false

abbrev first_field : List ℕ → (Value → Bool) → (Fields → Bool) → Fields → Bool
first_field k p q no_field = false
first_field k p q (field l v fs) = same_text k l && (p v && q fs)

abbrev no_fields : Fields → Bool
no_fields no_field = true
no_fields (field k v fs) = false

-- Whether a value has a schema; the fields of an object are those of the schema, in their order.
unfoldable mutual
  pub conforms : Schema → Value → Bool
  conforms anything v = true
  conforms (of_kind k) v = same_kind k (kind_of v)
  conforms (nullable s) v = same_kind a_null (kind_of v) || conforms s v
  conforms (array_of s) v = is_array_of (conforms s) v
  conforms (object_with fs) v = is_object_with (conforms_fields fs) v

  pub conforms_fields : FieldSchemas → Fields → Bool
  conforms_fields no_more fs = no_fields fs
  conforms_fields (with_field k s ss) fs = first_field k (conforms s) (conforms_fields ss) fs

-- The texts of a value in their order, each with the name of the field that it stands in, also through
-- arrays; `key` is the name around the value.
unfoldable mutual
  pub texts : List ℕ → Value → List (List ℕ × List ℕ)
  texts key null = []
  texts key (boolean b) = []
  texts key (number n) = []
  texts key (string s) = (key, s) ∷ []
  texts key (array vs) = item_texts key vs
  texts key (object fs) = field_texts fs

  pub item_texts : List ℕ → Items → List (List ℕ × List ℕ)
  item_texts key end = []
  item_texts key (item v vs) = texts key v ++ item_texts key vs

  pub field_texts : Fields → List (List ℕ × List ℕ)
  field_texts no_field = []
  field_texts (field k v fs) = texts k v ++ field_texts fs

map-append : {A B : Type 0} (f : A → B) (xs ys : List A) → map f (xs ++ ys) ≡ map f xs ++ map f ys
map-append f [] ys = refl
map-append f (x ∷ xs) ys = ap (λ rest. f x ∷ rest) (map-append f xs ys)

module _ (a : Anonymizer) where
  kind_of-anonymize_value :
      (key : List ℕ) (v : Value) → kind_of (anonymize_value a key v) ≡ kind_of v
  unfolding anonymize_value
  kind_of-anonymize_value key null = refl
  kind_of-anonymize_value key (boolean b) = refl
  kind_of-anonymize_value key (number n) = refl
  kind_of-anonymize_value key (string s) = refl
  kind_of-anonymize_value key (array vs) = refl
  kind_of-anonymize_value key (object fs) = refl

  all_items-anonymize_items :
      (p : Value → Bool) (key : List ℕ) (vs : Items)
      → ((v : Value) → p (anonymize_value a key v) ≡ p v)
      → all_items p (anonymize_items a key vs) ≡ all_items p vs
  unfolding anonymize_value
  all_items-anonymize_items p key end h = refl
  all_items-anonymize_items p key (item v vs) h =
      rw (h v, all_items-anonymize_items p key vs h) refl

  is_array_of-anonymize_value :
      (p : Value → Bool) (key : List ℕ) (v : Value)
      → ((w : Value) → p (anonymize_value a key w) ≡ p w)
      → is_array_of p (anonymize_value a key v) ≡ is_array_of p v
  unfolding anonymize_value
  is_array_of-anonymize_value p key null h = refl
  is_array_of-anonymize_value p key (boolean b) h = refl
  is_array_of-anonymize_value p key (number n) h = refl
  is_array_of-anonymize_value p key (string s) h = refl
  is_array_of-anonymize_value p key (array vs) h = all_items-anonymize_items p key vs h
  is_array_of-anonymize_value p key (object fs) h = refl

  is_object_with-anonymize_value :
      (p : Fields → Bool) (key : List ℕ) (v : Value)
      → ((fs : Fields) → p (anonymize_fields a fs) ≡ p fs)
      → is_object_with p (anonymize_value a key v) ≡ is_object_with p v
  unfolding anonymize_value
  is_object_with-anonymize_value p key null h = refl
  is_object_with-anonymize_value p key (boolean b) h = refl
  is_object_with-anonymize_value p key (number n) h = refl
  is_object_with-anonymize_value p key (string s) h = refl
  is_object_with-anonymize_value p key (array vs) h = refl
  is_object_with-anonymize_value p key (object fs) h = h fs

  mutual
    unfolding conforms anonymize_value

    value-conforms :
        (s : Schema) (key : List ℕ) (v : Value)
        → conforms s (anonymize_value a key v) ≡ conforms s v
    value-conforms anything key v = refl
    value-conforms (of_kind k) key v = rw (kind_of-anonymize_value key v) refl
    value-conforms (nullable s) key v =
        rw (kind_of-anonymize_value key v, value-conforms s key v) refl
    value-conforms (array_of s) key v =
        is_array_of-anonymize_value (conforms s) key v (λ w. value-conforms s key w)
    value-conforms (object_with ss) key v =
        is_object_with-anonymize_value (conforms_fields ss) key v (λ fs. fields-conform ss fs)

    fields-conform :
        (ss : FieldSchemas) (fs : Fields)
        → conforms_fields ss (anonymize_fields a fs) ≡ conforms_fields ss fs
    fields-conform no_more no_field = refl
    fields-conform no_more (field k v fs) = refl
    fields-conform (with_field k s ss) no_field = refl
    fields-conform (with_field k s ss) (field l v fs) =
        rw (value-conforms s l v, fields-conform ss fs) refl

  -- What a text becomes: under a name of the list, in any case, the name in lower case, `_` and 24
  -- digits of the HMAC of both; under any other name, the text with its addresses replaced.
  abbrev pub anonymized : List ℕ × List ℕ → List ℕ × List ℕ
  anonymized t =
      let key = a.lower_case t.0 in
      if any (same_text key) pii_field_names
      then (t.0, key ++ b'_' ∷ take 24 (a.hmac a.salt (key ++ b':' ∷ t.1)))
      else (t.0, mask_text a t.1)

  anonymized-text :
      a.lower_case [] ≡ [] → (key s : List ℕ) → (key, anonymize_text a key s) ≡ anonymized (key, s)
  unfolding pseudonymize fingerprint
  anonymized-text no_key [] s = rw no_key refl
  anonymized-text no_key (c ∷ cs) s =
      elim (Bool-cases (any (same_text (a.lower_case (c ∷ cs))) pii_field_names)) [
        | inl t ↦ rw t refl
        | inr f ↦ rw f refl
      ]

  mutual
    unfolding texts anonymize_value

    value-texts :
        a.lower_case [] ≡ []
        → (key : List ℕ) (v : Value)
        → texts key (anonymize_value a key v) ≡ map anonymized (texts key v)
    value-texts no_key key null = refl
    value-texts no_key key (boolean b) = refl
    value-texts no_key key (number n) = refl
    value-texts no_key key (string s) = ap (λ t. t ∷ []) (anonymized-text no_key key s)
    value-texts no_key key (array vs) = items-texts no_key key vs
    value-texts no_key key (object fs) = fields-texts no_key fs

    items-texts :
        a.lower_case [] ≡ []
        → (key : List ℕ) (vs : Items)
        → item_texts key (anonymize_items a key vs) ≡ map anonymized (item_texts key vs)
    items-texts no_key key end = refl
    items-texts no_key key (item v vs) =
        rw
          (
            value-texts no_key key v,
            items-texts no_key key vs,
            map-append anonymized (texts key v) (item_texts key vs),
          )
          refl

    fields-texts :
        a.lower_case [] ≡ []
        → (fs : Fields) → field_texts (anonymize_fields a fs) ≡ map anonymized (field_texts fs)
    fields-texts no_key no_field = refl
    fields-texts no_key (field k v fs) =
        rw
          (
            value-texts no_key k v,
            fields-texts no_key fs,
            map-append anonymized (texts k v) (field_texts fs),
          )
          refl

  -- A value keeps every schema that it has, and comes to have none that it had not: in particular its
  -- objects keep their fields, by name and in order.
  pub conforms-anonymize_value :
      (s : Schema) (key : List ℕ) (v : Value) → conforms s (anonymize_value a key v) ≡ conforms s v
  conforms-anonymize_value s key v = value-conforms s key v

  -- Where the empty text in lower case is empty, the texts of the result are those of the value, in
  -- their order and under the same field names: one that stands under a name of the list, in any case
  -- and through arrays as well, is replaced by the name in lower case, `_` and 24 digits of the HMAC of
  -- both, and each other by what `maskText` makes of it.
  pub texts-anonymize_value :
      a.lower_case [] ≡ []
      → (key : List ℕ) (v : Value)
      → texts key (anonymize_value a key v) ≡ map anonymized (texts key v)
  texts-anonymize_value no_key key v = value-texts no_key key v
