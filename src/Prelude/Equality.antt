-- ===== src/Prelude/Equality.antt =====
-- Keys that a program compares with `===`: one operator for numbers and texts.
use Prim.Native.Nat.{ℕ}
use Prim.Native.String.{String}
use mathlib.Core.Path.{◌≡◌, refl}
use mathlib.Core.Logic.{◌↔◌}
use mathlib.Core.Bool.{Bool, true}
use text.Mathlib.Text.{◌==◌ as str_eq}
use text.Mathlib.TextEquality.{eq_iff}
use quipay_backend.Prelude.Tests.{eqb, eqb_iff}

-- Types with a Boolean test that decides their equality.
pub record Key {κ} (K : Type κ) : Type κ where
  pub test : K → K → Bool
  pub test_iff : (j k : K) → (test j k ≡ true) ↔ (j ≡ k)

instance abbrev pub string_eq : Key String
string_eq = record { test = str_eq; test_iff = eq_iff }

instance abbrev pub nat_eq : Key ℕ
nat_eq = record { test = eqb; test_iff = eqb_iff }

infix 50 ◌==◌
abbrev pub ◌==◌ {κ} : {K : Type κ} ⦃keys : Key K⦄ (j k : K) → Bool
◌==◌ ⦃keys⦄ j k = keys.test j k

pub ==_refl {κ} : {K : Type κ} ⦃keys : Key K⦄ (k : K) → (k == k) ≡ true
==_refl ⦃keys⦄ k = (keys.test_iff k k).1 refl
