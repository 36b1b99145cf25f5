-- ===== src/Budget/Ledger/Spend.antt =====
-- What `RecordTransaction` does to the spend that the guard reads, and which errors it reports.
use tkngate.Base.{
  ℕ, ◌≡◌, refl, sym, ap, ◌∙◌, ◌↔◌, Bool, true, false, ◌&&◌, List, [], ◌∷◌, ◌++◌, filter,
  if◌then◌else◌, arith,
}
use mathlib.Core.List.{map-append, append-nil}
use tkngate.Base.Bytes.{Bytes, ◌=s◌}
use tkngate.Float64.{Float64}
use tkngate.Sql.{ok}
use tkngate.Budget.Models.{Transaction, Ledger}
use tkngate.Budget.Ledger.{
  Cluster, Runs, is_set, sum, share_spend, insert_transaction, charge_session, charge_key,
  charge_organization, charge_key_and_organization, charge_rows, record_transaction, costs,
  from_redis, or_table, get_total_spend, get_session_spend,
}

filter-append {ℓ} :
    {A : Type ℓ} (p : A → Bool) (xs ys : List A) → filter p (xs ++ ys) ≡ filter p xs ++ filter p ys
filter-append p [] ys = refl
filter-append p (x ∷ xs) ys = ground (arith, filter-append p xs ys)

filter_one {ℓ} :
    {A : Type ℓ} (p : A → Bool) (x : A) {b : Bool}
    → p x ≡ b
    → filter p (x ∷ []) ≡ (if b then x ∷ [] else [])
filter_one p x {b = true} e = ground arith
filter_one p x {b = false} e = ground arith

module _ (F : Float64) where
  costs-append :
      (txs : List (Transaction F)) (tx : Transaction F)
      → costs F (txs ++ tx ∷ []) ≡ costs F txs ++ tx.estimated_cost_usd ∷ []
  unfolding costs
  costs-append txs tx = map-append _ txs (tx ∷ [])

  -- Which statements touch the transactions table.
  charge_rows-transactions :
      (runs : Runs) (tx : Transaction F) (l : Ledger F)
      → (charge_rows F runs tx l).1.transactions ≡ l.transactions
  unfolding charge_rows charge_session charge_key_and_organization charge_key charge_organization
  charge_rows-transactions runs tx l = ground arith

  record_transaction-transactions :
      (c : Cluster) (runs : Runs) (now : ℕ) (tx : Transaction F) (l : Ledger F)
      → (record_transaction F c runs now tx l).1.transactions ≡ (
          if runs.insert_row
          then l.transactions ++ record tx { id = l.next_transaction; timestamp = now } ∷ []
          else l.transactions)
  unfolding record_transaction share_spend insert_transaction
  record_transaction-transactions c runs now tx l =
      ground (
        arith,
        charge_rows-transactions runs tx (insert_transaction F now tx (share_spend F c tx l)),
      )

  -- The amounts that SUM takes for the total and for a session.
  abbrev pub session_costs : Bytes → List (Transaction F) → List F.Float
  session_costs id txs = costs F (filter (λ tx. tx.session_id =s id) txs)

  costs-recorded :
      (run : Bool) (txs : List (Transaction F)) (tx : Transaction F)
      → costs F (if run then txs ++ tx ∷ [] else txs)
        ≡ costs F txs ++ (if run then tx.estimated_cost_usd ∷ [] else [])
  costs-recorded true txs tx = costs-append txs tx
  costs-recorded false txs tx = sym (append-nil (costs F txs))

  costs-filter :
      (p : Transaction F → Bool) (run : Bool) (txs : List (Transaction F)) (tx : Transaction F)
      → costs F (filter p (if run then txs ++ tx ∷ [] else txs))
        ≡ costs F (filter p txs) ++ (if run && p tx then tx.estimated_cost_usd ∷ [] else [])
  costs-filter p false txs tx = sym (append-nil (costs F (filter p txs)))
  costs-filter p true txs tx = rw (filter-append p txs (tx ∷ [])) (go (p tx) refl)
    where
      go :
          (b : Bool)
          → p tx ≡ b
          → costs F (filter p txs ++ filter p (tx ∷ []))
            ≡ costs F (filter p txs) ++ (if b then tx.estimated_cost_usd ∷ [] else [])
      go true e = rw (filter_one p tx e) (costs-append (filter p txs) tx)
      go false e =
          rw (filter_one p tx e)
            (ap (costs F) (append-nil (filter p txs)) ∙ sym (append-nil (costs F (filter p txs))))

  get_total_spend-table :
      (c : Cluster) (l : Ledger F)
      → c.enabled ≡ false
      → get_total_spend F c true l ≡ ok (sum F (costs F l.transactions))
  unfolding get_total_spend from_redis or_table
  get_total_spend-table c l off = ground arith

  get_session_spend-table :
      (c : Cluster) (id : Bytes) (l : Ledger F)
      → c.enabled ≡ false
      → get_session_spend F c true id l ≡ ok (sum F (session_costs id l.transactions))
  unfolding get_session_spend from_redis or_table
  get_session_spend-table c id l off = ground arith

  -- Without a cluster, the total and the spend of a session after a transaction are the SUM of the
  -- amounts from before with the cost of this transaction at the end, the session's only if it is the
  -- transaction's own; a transaction whose INSERT fails adds no amount anywhere, whatever happens to
  -- the statements after it.
  pub record_transaction-spend :
      (c : Cluster) (runs : Runs) (now : ℕ) (tx : Transaction F) (l : Ledger F) (id : Bytes)
      → c.enabled ≡ false
      → let l' = (record_transaction F c runs now tx l).1 in
        (get_total_spend F c true l'
          ≡ ok (
              sum F (
                costs F l.transactions
                ++ (if runs.insert_row then tx.estimated_cost_usd ∷ [] else []))))
        × (get_session_spend F c true id l'
            ≡ ok (
                sum F (
                  session_costs id l.transactions
                  ++ (if runs.insert_row && (tx.session_id =s id)
                      then tx.estimated_cost_usd ∷ []
                      else []))))
  record_transaction-spend c runs now tx l id off =
      let l' = (record_transaction F c runs now tx l).1 in
      let row : Transaction F = record tx { id = l.next_transaction; timestamp = now } in
      let p : Transaction F → Bool = λ x. x.session_id =s id in
      let rows = record_transaction-transactions c runs now tx l in
      (
        get_total_spend-table c l' off
            ∙ ap (λ x. ok (sum F (costs F x))) rows
            ∙ ap (λ x. ok (sum F x)) (costs-recorded runs.insert_row l.transactions row),
        get_session_spend-table c id l' off
            ∙ ap (λ x. ok (sum F (costs F (filter p x)))) rows
            ∙ ap (λ x. ok (sum F x)) (costs-filter p runs.insert_row l.transactions row),
      )

  -- What `RecordTransaction` reports. It reports success exactly when the INSERT and the last
  -- statement that it sent were executed: for a transaction of a virtual key the updates of the
  -- session and of the key itself may both have failed.
  pub record_transaction-ok_iff :
      (c : Cluster) (runs : Runs) (now : ℕ) (tx : Transaction F) (l : Ledger F)
      → ((record_transaction F c runs now tx l).0 ≡ ok tt) ↔ (
          (runs.insert_row
            && (if is_set tx.virtual_key_hash
                then runs.organization_row
                else if is_set tx.session_id
                then runs.session_row
                else true))
          ≡ true)
  unfolding record_transaction charge_rows charge_key_and_organization
  record_transaction-ok_iff c runs now tx l = ground arith
