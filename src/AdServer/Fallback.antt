-- ===== src/AdServer/Fallback.antt =====
-- `httpFallback` of src/AdServer.cpp: where an address leads to stays where it is.
use aidt.Prelude.{
  ◌≡◌, refl, sym, ap, ◌∙◌, inl, inr, Bool, true, false, not, [], ◌∷◌, ◌++◌, Bytes, bytes_eq,
  Bool-cases, ℕ, nat_beq, arith,
}
use aidt.Texts.{contains, contains-append, is_prefix}
use aidt.Settings.{AdbaseConfig}
use aidt.Message.{is_empty}
use aidt.AdServer.{http_fallback, fallback_of, rewrite}

-- The first byte, and the last one, is there and is not a slash.
abbrev pub starts : Bytes → Bool
starts [] = false
starts (c ∷ s) = not (nat_beq c b'/')

abbrev pub ends : Bytes → Bool
ends [] = false
ends (c ∷ []) = not (nat_beq c b'/')
ends (c ∷ d ∷ s) = ends (d ∷ s)

-- `trim` takes a slash away in front of a text that starts and ends with other bytes.
pub record IsTrim (trim : Bytes → Bytes → Bytes) : Type 0 where
  pub trim_lem : (s : Bytes) → starts s ≡ true → ends s ≡ true → trim (b'/' ∷ s) (b'/' ∷ []) ≡ s

starts_append : (s t : Bytes) → starts s ≡ true → starts (s ++ t) ≡ true
starts_append [] t h = absurd cc
starts_append (c ∷ s) t h = h

ends_append : (s : Bytes) (c : ℕ) (t : Bytes) → ends (c ∷ t) ≡ true → ends (s ++ c ∷ t) ≡ true
ends_append [] c t h = h
ends_append (d ∷ []) c t h = h
ends_append (d ∷ e ∷ s) c t h = ends_append (e ∷ s) c t h

ends_slash : (t : Bytes) → ends t ≡ true → ends (b'/' ∷ t) ≡ true
ends_slash [] h = absurd cc
ends_slash (c ∷ t) h = h

-- A text without slashes that is not empty starts with another byte.
starts_plain : (s : Bytes) → is_empty s ≡ false → contains (b'/' ∷ []) s ≡ false → starts s ≡ true
unfolding contains is_prefix
starts_plain [] filled plain = absurd cc
starts_plain (c ∷ s) filled plain = ground (arith, plain)

module _ (conf : AdbaseConfig) (trim : Bytes → Bytes → Bytes) (trims : IsTrim trim) where
  not_rewritten :
      (has_manager : Bool) (url : Bytes)
      → http_fallback conf trim has_manager url ≡ fallback_of conf (trim url (b'/' ∷ [])) url
  unfolding http_fallback rewrite
  not_rewritten true url = refl
  not_rewritten false url = refl

  -- An address of two parts is not changed.
  two_parts :
      (has_manager : Bool) (x y : Bytes)
      → starts x ≡ true
      → ends y ≡ true
      → http_fallback conf trim has_manager (b'/' ∷ (x ++ (b'/' ∷ y))) ≡ b'/' ∷ (x ++ (b'/' ∷ y))
  unfolding fallback_of
  two_parts has_manager [] y hx hy = absurd cc
  two_parts has_manager (c ∷ x) y hx hy =
      let text = c ∷ x ++ (b'/' ∷ y) in
      let trimmed = trims.trim_lem text hx (ends_append (c ∷ x) b'/' y (ends_slash y hy)) in
      not_rewritten has_manager (b'/' ∷ text)
      ∙ ap (λ t. fallback_of conf t (b'/' ∷ text)) trimmed
      ∙ rw (contains-append (c ∷ x) (b'/' ∷ []) y, fallback_of) refl

  -- When `trim` takes a slash away in front of a text that starts and ends with other bytes, and the
  -- default controller and action start and end with other bytes: where an address leads to leads to
  -- itself, so that looking it up once more changes nothing.
  pub http_fallback_lem :
      (has_manager : Bool) (url : Bytes)
      → starts conf.http_default_controller ≡ true
      → ends conf.http_default_action ≡ true
      → let target = http_fallback conf trim has_manager url in
        http_fallback conf trim has_manager target ≡ target
  unfolding fallback_of
  http_fallback_lem has_manager url hx hy =
      let trim_url = trim url (b'/' ∷ []) in
      let there = not_rewritten has_manager url in
      elim (Bool-cases (is_empty trim_url)) [
        | inl e ↦
            let at = there ∙ rw (e, fallback_of) refl in
            ap (http_fallback conf trim has_manager) at
            ∙ two_parts has_manager conf.http_default_controller conf.http_default_action hx hy
            ∙ sym at
        | inr e ↦ elim (Bool-cases (contains (b'/' ∷ []) trim_url)) [
          | inl e' ↦
              let at : http_fallback conf trim has_manager url ≡ url =
                there ∙ rw (e, e', fallback_of) refl in
              ap (http_fallback conf trim has_manager) at
          | inr e' ↦
              let at = there ∙ rw (e, e', fallback_of) refl in
              ap (http_fallback conf trim has_manager) at
              ∙ two_parts has_manager trim_url conf.http_default_action (starts_plain trim_url e e')
                  hy
              ∙ sym at
        ]
      ]
