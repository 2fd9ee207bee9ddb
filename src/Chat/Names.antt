-- ===== src/Chat/Names.antt =====
-- example/chat-protocol/src/lib.rs: the names that `validate` lets through.
use Prim.Native.Char.{Char}
use Prim.Native.String.{String, len}
use multiplayer_kit.Base.{
  ◌≡◌, ◌↔◌, refl, sym, ap, ◌∙◌, Bool, true, false, not, ◌||◌, ◌≤◌, ltb, if◌then◌else◌, ok, inl, inr,
  Bool-cases, arith, ◌<◌, ltb→lt, ltb→le,
}
use multiplayer_kit.Chat.{
  ChatRoomConfig, is_whitespace, trim_start, trim_last, trim_end, trim, is_empty, validate,
}

-- A character that is not white space.
unfoldable pub has_visible : String → Bool
has_visible String.[] = false
has_visible (String.◌∷◌ c s) = not (is_whitespace c) || has_visible s

trim_last-is_empty :
    (c : Char) (s : String)
    → is_empty (trim_last c s) ≡ (if is_whitespace c then is_empty s else false)
unfolding trim_last is_empty
trim_last-is_empty c String.[] = elim (Bool-cases (is_whitespace c)) [
  | inl e ↦ rw e refl
  | inr e ↦ rw e refl
]
trim_last-is_empty c (String.◌∷◌ d s) = elim (Bool-cases (is_whitespace c)) [
  | inl e ↦ rw e refl
  | inr e ↦ rw e refl
]

trim_end-is_empty : (s : String) → is_empty (trim_end s) ≡ not (has_visible s)
unfolding trim_end is_empty has_visible
trim_end-is_empty String.[] = refl
trim_end-is_empty (String.◌∷◌ c s) =
    trim_last-is_empty c (trim_end s)
    ∙ elim (Bool-cases (is_whitespace c)) [ inl e ↦ rw e (trim_end-is_empty s) | inr e ↦ rw e refl ]

trim_start-has_visible : (s : String) → has_visible (trim_start s) ≡ has_visible s
unfolding trim_start has_visible
trim_start-has_visible String.[] = refl
trim_start-has_visible (String.◌∷◌ c s) = elim (Bool-cases (is_whitespace c)) [
  | inl e ↦ rw e (trim_start-has_visible s)
  | inr e ↦ rw e (rw (e, has_visible) refl)
]

trim-is_empty : (s : String) → is_empty (trim s) ≡ not (has_visible s)
unfolding trim
trim-is_empty s = trim_end-is_empty (trim_start s) ∙ ap not (trim_start-has_visible s)

-- A configuration is valid exactly if its name has a character that is not white space and takes at
-- most 50 bytes of UTF-8.
pub validate_lem :
    (config : ChatRoomConfig)
    → (validate config ≡ ok tt) ↔ ((has_visible config.name ≡ true) × (len config.name ≤ 50))
unfolding validate
validate_lem config =
    let blank : is_empty (trim config.name) ≡ not (has_visible config.name) =
      trim-is_empty config.name in
    elim (Bool-cases (has_visible config.name)) [
      | inl e ↦ elim (Bool-cases (ltb 50 (len config.name))) [
        | inl k ↦
            let long : 50 < len config.name = ltb→lt 50 (len config.name) k in
            (λ h. absurd (cc (rw (blank, e, k) at h)), λ h. absurd (omega (arith, h.1, long)))
        | inr k ↦ (λ h. (e, ltb→le 50 (len config.name) k), λ h. rw (blank, e, k) refl)
      ]
      | inr e ↦ (λ h. absurd (cc (rw (blank, e) at h)), λ h. absurd (cc (sym e ∙ h.0)))
    ]
