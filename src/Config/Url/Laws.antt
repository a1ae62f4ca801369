-- ===== src/Config/Url/Laws.antt =====
-- config.go: the hand-written JSON conversions.
use large_model_proxy.Base.{
  ◌≤◌, ◌≡◌, true, false, some, arith, ◌==◌, Bool-cases, Option-cases, inl, inr, ◌&&◌, ◌⊎◌, pos,
  refl, String, ◌↔◌, ◌≢◌, none, sym, ap, ◌∙◌, str_eq, str_eq_ne, eq_iff, if◌then◌else◌,
}
use Prim.Native.Char.{Char, code}
use Prim.Native.String.{char_at}
use large_model_proxy.Config.{ServiceUrlOption, ResourceAvailable, is_blank, no_resource}
use large_model_proxy.Config.Url.{
  RawResource, Json, unmarshal_url, marshal_url, unmarshal_resource, resource_null,
  resource_refused, resource_number, resource_object,
}
use large_model_proxy.Manager.{is_zero}

abbrev quote : Char
quote = "\""

quoted-null : (raw : String) → char_at raw 0 ≡ quote → str_eq raw "null" ≡ false
quoted-null raw q =
    str_eq_ne raw "null"
      (λ e. let letter : 110 ≡ 34 = ap (λ d. code (char_at d 0)) (sym e) ∙ ap code q in omega arith)

-- A service URL that was set, to null or to a text, is read back as it was written, and it is written
-- as JSON's null exactly if it was set to null, also where the text itself reads null. The conditions
-- are on encoding/json and the text of the URL, if it has one: the JSON that Marshal makes of the text
-- begins with a quote, and Unmarshal reads the same text from it.
pub unmarshal_url-marshal_url :
    (json : Json) (s : ServiceUrlOption)
    → s.is_set ≡ true
    → ((t : String) → s.value ≡ some t → char_at (json.marshal t) 0 ≡ quote)
    → ((t : String) → s.value ≡ some t → json.unmarshal (json.marshal t) ≡ some t)
    → (unmarshal_url json (marshal_url json s) ≡ some s)
      × ((marshal_url json s ≡ "null") ↔ (s.value ≡ none))
unfolding unmarshal_url marshal_url
unmarshal_url-marshal_url json s h quoted read_back = elim (Option-cases s.value) [
  | inl e ↦ rw (h, e) (refl, ((λ p. refl), (λ p. refl)))
  | inr (t, e) ↦
      let other = quoted-null (json.marshal t) (quoted t e) in
      let never : json.marshal t ≢ "null" =
        λ p. ground (arith, other, eq_iff (json.marshal t) "null") in
      rw (h, e, other, read_back t e) (refl, ((λ p. absurd (never p)), (λ p. ground (arith, p))))
]

-- What an accepted entry makes of its parts.
abbrev pub IsRead : RawResource → ResourceAvailable → Type 0
IsRead resource_null a = (a.amount ≡ pos 0) × (is_blank a.check_command ≡ true)
IsRead (resource_number n) a = (a.amount ≡ n) × (is_blank a.check_command ≡ true)
IsRead (resource_object amount command interval) a =
    (a.amount ≡ amount)
    × (a.check_command ≡ command)
    × ((is_zero amount ≡ false) ⊎ (is_blank command ≡ false))
IsRead resource_refused a = ⊥

-- Every accepted resource has no CheckCommand or a positive interval for its repetition. Null is
-- accepted as the amount 0 and a number as that amount, both without a CheckCommand; an accepted object
-- keeps its amount and its CheckCommand, and its amount is not zero or it has a CheckCommand.
pub unmarshal_resource-interval :
    (raw : RawResource) (a : ResourceAvailable)
    → unmarshal_resource raw ≡ some a
    → ((is_blank a.check_command ≡ true) ⊎ (1 ≤ a.check_when_not_enough_interval_milliseconds))
      × IsRead raw a
unfolding unmarshal_resource
unmarshal_resource-interval resource_null a e =
    let q : a ≡ no_resource = cc e in rw q (inl refl, (refl, refl))
unmarshal_resource-interval (resource_number n) a e =
    let q : a ≡ record no_resource { amount = n } = cc e in rw q (inl refl, (refl, refl))
unmarshal_resource-interval (resource_object amount command interval) a e =
    elim (Bool-cases (is_zero amount && is_blank command)) [
      | inl bad ↦ ground (arith, e, bad)
      | inr good ↦
          let q : a ≡ record {
            amount = amount;
            check_command = command;
            check_when_not_enough_interval_milliseconds = if interval == 0 then 1000 else interval;
          } =
            ground (arith, e, good) in
          rw q (inr (ground arith), (refl, refl, ground (arith, good)))
    ]
unmarshal_resource-interval resource_refused a e = ground (arith, e)
