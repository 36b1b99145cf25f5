-- ===== src/Waf/Signatures.antt =====
-- What the firewall blocks.
use mathlib.Core.List.{Memᴰ}
use tkngate.Base.{
  ◌≡◌, ap, ◌↔◌, inl, inr, refl, Bool, true, List, [], ◌∷◌, ◌++◌, any, arith, Bool-cases,
}
use tkngate.Base.Bytes.{Bytes}
use tkngate.Base.Text.{contains, contains-append, parts_of_contains}
use tkngate.Waf.{Engine, WafConfig, known_prompt_injections, detect_jailbreak}

any-Mem {ℓ} :
    {A : Type ℓ} (p : A → Bool) (xs : List A) → any p xs ≡ true → (x : A) × Memᴰ x xs × (p x ≡ true)
any-Mem p [] h = absurd (ground arith)
any-Mem p (x ∷ xs) h = elim (Bool-cases (p x)) [
  | inl hit ↦ (x, Memᴰ.head refl, hit)
  | inr miss ↦ let (y, m, e) = any-Mem p xs (ground arith) in (y, Memᴰ.tail m, e)
]

Mem-any {ℓ} :
    {A : Type ℓ} (p : A → Bool) {x : A} {xs : List A} → Memᴰ x xs → p x ≡ true → any p xs ≡ true
Mem-any p (Memᴰ.head same) e = ground (arith, ap p same)
Mem-any p (Memᴰ.tail m) e = ground (arith, Mem-any p m e)

-- What the firewall looks for in a text.
pub data IsThreat (E : Engine) (custom_blocklist : List E.Regexp) (payload : Bytes) : Type 0 where
  custom :
      (re : E.Regexp)
      → Memᴰ re custom_blocklist
      → E.is_match re payload ≡ true
      → IsThreat E custom_blocklist payload
  known :
      (signature before after : Bytes)
      → Memᴰ signature known_prompt_injections
      → E.to_lower payload ≡ before ++ (signature ++ after)
      → IsThreat E custom_blocklist payload

module _ (E : Engine) (cfg : WafConfig) (custom_blocklist : List E.Regexp) where
  found :
      (payload : Bytes)
      → cfg.enabled ≡ true
      → detect_jailbreak E cfg custom_blocklist payload ≡ true
      → IsThreat E custom_blocklist payload
  unfolding detect_jailbreak
  found payload on h = elim (Bool-cases (any (λ re. E.is_match re payload) custom_blocklist)) [
    | inl listed ↦ let (re, m, e) = any-Mem _ custom_blocklist listed in custom re m e
    | inr unlisted ↦
        let (s, m, e) =
          any-Mem (λ signature. contains signature (E.to_lower payload)) known_prompt_injections
            (ground arith) in
        let (before, after, same) = parts_of_contains s (E.to_lower payload) e in
        known s before after m same
  ]

  blocks :
      (payload : Bytes)
      → cfg.enabled ≡ true
      → IsThreat E custom_blocklist payload
      → detect_jailbreak E cfg custom_blocklist payload ≡ true
  unfolding detect_jailbreak
  blocks payload on (custom re m e) =
      rw (on, detect_jailbreak) (rw (Mem-any (λ re. E.is_match re payload) m e) refl)
  blocks payload on (known s before after m e) =
      let hit : contains s (E.to_lower payload) ≡ true = rw e (contains-append before s after) in
      let all = Mem-any (λ signature. contains signature (E.to_lower payload)) m hit in ground arith

  -- With the firewall on, a text is refused exactly if it matches a pattern of the blocklist or its
  -- lower case has one of the known signatures somewhere in it.
  pub detect_jailbreak_iff :
      (payload : Bytes)
      → cfg.enabled ≡ true
      → (detect_jailbreak E cfg custom_blocklist payload ≡ true)
        ↔ IsThreat E custom_blocklist payload
  detect_jailbreak_iff payload on = (found payload on, blocks payload on)
