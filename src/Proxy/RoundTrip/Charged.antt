-- ===== src/Proxy/RoundTrip/Charged.antt =====
-- A response that was returned is charged to its key.
use tkngate.Base.{◌≡◌, true, false, ◌&&◌, none, some, if◌then◌else◌}
use tkngate.Base.Int.{ℤ, pos, leb_ℤ}
use tkngate.Base.Bytes.{Bytes}
use tkngate.Tokenizer.{count}
use tkngate.Budget.Models.{Ledger}
use tkngate.Budget.Ledger.{is_set}
use tkngate.Cache.Semantic.{InMemoryCache}
use tkngate.Proxy.Account.{Usage, is_success, is_zero}
use tkngate.Proxy.Capture.{Input}
use tkngate.Proxy.Retry.{Response}
use tkngate.Proxy.RoundTrip.{Setup, World, GateOf, ScreenOf, Shared, Course}

module _ (S : Setup) (i : Input) (res : Response) where
  -- What a response is counted as: its input and output tokens and its model. A provider's own count
  -- goes before the estimates from the two texts.
  pub data IsCounted : ℤ → ℤ → Bytes → Type 0 where
    by_provider :
        (u : Usage)
        → is_success res ≡ true
        → is_set res.body ≡ true
        → S.usage res.body ≡ some u
        → leb_ℤ u.total_tokens (pos 0) ≡ false
        → (is_zero u.prompt_tokens && is_zero u.completion_tokens) ≡ false
        → IsCounted u.prompt_tokens u.completion_tokens
            (if is_set u.model then u.model else i.model)
    by_text :
        S.usage res.body ≡ none
        → IsCounted
            (pos (count S.float S.unicode i.body i.model))
            (pos (count S.float S.unicode res.body i.model))
            i.model
    by_text_after_failure :
        is_success res ≡ false
        → IsCounted
            (pos (count S.float S.unicode i.body i.model))
            (pos (count S.float S.unicode res.body i.model))
            i.model

module _ (S : Setup) (H : Shared S) (t : Course S) where
  -- The parts of the state are apart from each other.
  pub record IsApart : Type 0 where
    pub gates : (g : GateOf S) (w : World S) → H.gate (H.set_gate g w) ≡ g
    pub screens : (s : ScreenOf S) (w : World S) → H.gate (H.set_screen s w) ≡ H.gate w
    pub caches : (c : InMemoryCache S.float) (w : World S) → H.gate (H.set_cache c w) ≡ H.gate w
