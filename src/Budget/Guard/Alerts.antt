-- ===== src/Budget/Guard/Alerts.antt =====
-- When the guard hands an alert to internal/alerting.
use tkngate.Base.{
  ◌≡◌, refl, true, false, not, ◌&&◌, Option, none, some, find?, arith, Bool-cases, inl, inr,
}
use tkngate.Base.Bytes.{Bytes, ◌=s◌}
use tkngate.Float64.{Float64}
use tkngate.Sql.{find?-update, find?-true}
use tkngate.Budget.Models.{BudgetZone, green, amber, red, BudgetStatus, VirtualKeyRecord, Ledger}
use tkngate.Budget.Ledger.Accounts.{get_virtual_keys, update_virtual_key_zone, set_zone}
use tkngate.Budget.Guard.{
  BudgetConfig, Guard, same_zone, status_of, note_key, check_found, check_keys, check_key,
  check_virtual_key_budget,
}

module _ (F : Float64) where
  same_zone_refl : (z : BudgetZone) → same_zone z z ≡ true
  unfolding same_zone
  same_zone_refl green = refl
  same_zone_refl amber = refl
  same_zone_refl red = refl

  find_key-update_virtual_key_zone :
      (hash : Bytes) (z : BudgetZone) (l : Ledger F) (k : VirtualKeyRecord F)
      → find? (λ k. k.key_hash =s hash) l.virtual_keys ≡ some k
      → find? (λ k. k.key_hash =s hash) (update_virtual_key_zone F true hash z l).1.virtual_keys
        ≡ some (record k { current_state = z })
  unfolding update_virtual_key_zone
  find_key-update_virtual_key_zone hash z l k e = ground (
    arith,
    find?-update (λ k. k.key_hash =s hash) (λ k. k.key_hash =s hash) (set_zone F z) (λ x. refl)
        l.virtual_keys,
    find?-true (λ k. k.key_hash =s hash) l.virtual_keys e,
  )

  note_key-ledger :
      (hash : Bytes) (k : VirtualKeyRecord F) (s : BudgetStatus F) (l : Ledger F) (g : Guard F)
      → g.ledger ≡ some l
      → find? (λ k. k.key_hash =s hash) l.virtual_keys ≡ some k
      → (l' : Ledger F) × (k' : VirtualKeyRecord F) × ((note_key F true hash k s l g).ledger
          ≡ some l')
        × (find? (λ k. k.key_hash =s hash) l'.virtual_keys ≡ some k')
        × (k'.allocated_budget ≡ k.allocated_budget)
        × (k'.consumed_budget ≡ k.consumed_budget)
        × ((not (same_zone s.zone k'.current_state) && not (same_zone s.zone green)) ≡ false)
  unfolding note_key
  note_key-ledger hash k s l g e found =
      elim (Bool-cases (not (same_zone s.zone k.current_state) && not (same_zone s.zone green))) [
        | inl changed ↦ (
          (update_virtual_key_zone F true hash s.zone l).1,
          record k { current_state = s.zone },
          rw changed,
          find_key-update_virtual_key_zone hash s.zone l k found,
          refl,
          refl,
          rw (same_zone_refl s.zone),
        )
        | inr unchanged ↦ (l, k, rw unchanged e, found, refl, refl, unchanged)
      ]

  found-twice :
      (cfg : BudgetConfig F) (hash : Bytes) (l : Ledger F) (g : Guard F)
      (o : Option (VirtualKeyRecord F))
      → g.ledger ≡ some l
      → find? (λ k. k.key_hash =s hash) l.virtual_keys ≡ o
      → check_key F cfg true true hash
          (check_found F cfg true hash o l g).1.ledger
          (check_found F cfg true hash o l g).1
        ≡ check_found F cfg true hash o l g
  unfolding check_key check_keys get_virtual_keys check_found
  found-twice cfg hash l g none e found = rw e (rw (found, check_found))
  found-twice cfg hash l g (some k) e found =
      let s = status_of F cfg k.allocated_budget k.consumed_budget in
      let (l', k', el, ek, ea, ec, same) = note_key-ledger hash k s l g e found in
      rw el (rw (ek, check_found) (rw (ea, ec) (rw same)))

  ledger-twice :
      (cfg : BudgetConfig F) (hash : Bytes) (g : Guard F) (o : Option (Ledger F))
      → g.ledger ≡ o
      → check_key F cfg true true hash
          (check_key F cfg true true hash o g).1.ledger
          (check_key F cfg true true hash o g).1
        ≡ check_key F cfg true true hash o g
  unfolding check_key check_keys get_virtual_keys
  ledger-twice cfg hash g none e = rw e
  ledger-twice cfg hash g (some l) e =
      found-twice cfg hash l g (find? (λ k. k.key_hash =s hash) l.virtual_keys) e refl

  -- A virtual key that is checked twice with nothing in between gets the same report twice, and no
  -- second alert: the first check left the zone in the key's row.
  pub check_virtual_key_budget-twice :
      (cfg : BudgetConfig F) (hash : Bytes) (g : Guard F)
      → check_virtual_key_budget F cfg true true hash
          (check_virtual_key_budget F cfg true true hash g).1
        ≡ check_virtual_key_budget F cfg true true hash g
  unfolding check_virtual_key_budget
  check_virtual_key_budget-twice cfg hash g = ledger-twice cfg hash g g.ledger refl
