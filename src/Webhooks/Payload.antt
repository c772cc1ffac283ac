-- ===== src/Webhooks/Payload.antt =====
-- delivery.ts: what a webhook sends.
use quipay_backend.Prelude.{
  ℕ, String, Option, none, some, List, [], ◌∷◌, if◌then◌else◌, ◌==◌, nat_eq, string_eq,
}
use Prim.Native.String
use mathlib.Core.Option
use quipay_backend.Dlq.{
  Json, num, text, array, object, Elements, end, element, Members, close, member, Fields,
}
use quipay_backend.Webhooks.Model.{Request, Env, WebhookSubscription}

-- A JSON object of the fields given.
abbrev members : Fields → Members
members [] = close
members ((k, v) ∷ fields) = member k v (members fields)

abbrev elements : List Json → Elements
elements [] = end
elements (v ∷ vs) = element v (elements vs)

abbrev record_of : Fields → Json
record_of fields = object (members fields)

-- `if (signingSecret)`: an empty secret is none.
abbrev or_null : Option String → Option String
or_null none = none
or_null (some s) = if "" == s then none else some s

module _ (env : Env) where
  unfoldable pub build_outgoing_payload : ℕ → WebhookSubscription → String → Json → Json
  build_outgoing_payload now sub event_type payload =
      let title = String.◌++◌ "Quipay Notification: " (env.upper_case event_type) in
      let text_of = env.stringify_indented payload in
      if env.includes sub.url "discord.com/api/webhooks"
      then record_of (
          (
            "embeds",
            array (
                elements (
                  record_of (
                    ("title", text title)
                    ∷ ("description", text (String.◌++◌ "```json\n" (String.◌++◌ text_of "\n```")))
                    ∷ ("color", num 5793266)
                    ∷ ("timestamp", text (env.iso_time now))
                    ∷ [])
                  ∷ [])),
          )
          ∷ [])
      else if env.includes sub.url "hooks.slack.com"
      then record_of (
          (
            "blocks",
            array (
                elements (
                  record_of (
                    ("type", text "header")
                    ∷ ("text", record_of (("type", text "plain_text") ∷ ("text", text title) ∷ []))
                    ∷ [])
                  ∷ record_of (
                      ("type", text "section")
                      ∷ (
                        "text",
                        record_of (
                            ("type", text "mrkdwn")
                            ∷ ("text", text (String.◌++◌ "```" (String.◌++◌ text_of "```")))
                            ∷ []),
                      )
                      ∷ [])
                  ∷ [])),
          )
          ∷ [])
      else record_of (
          ("event", text event_type)
          ∷ ("data", payload)
          ∷ ("timestamp", text (env.iso_time now))
          ∷ [])

  compute_quipay_webhook_signature_hex : String → String → String
  compute_quipay_webhook_signature_hex raw_body signing_secret = env.hmac signing_secret raw_body

  unfoldable pub outgoing_request : String → Json → Request
  unfolding compute_quipay_webhook_signature_hex
  outgoing_request url payload = record {
    url = url;
    body = payload;
    signature =
        Option.map (compute_quipay_webhook_signature_hex (env.stringify payload))
          (or_null env.signing_secret);
  }
