-- ===== src/Budget/Ledger/WellFormed/Charged.antt =====
-- The writes of RecordTransaction of internal/budget/ledger.go keep the unique columns unique.
use tkngate.Base.{ℕ, ◌≡◌, refl, Bool, true, false, arith}
use tkngate.Base.Bytes.{Bytes, ◌=s◌}
use tkngate.Float64.{Float64}
use tkngate.Sql.{Distinct-update}
use tkngate.Budget.Models.{Transaction, Ledger}
use tkngate.Budget.Ledger.{
  Cluster, Runs, exec, share_spend, insert_transaction, charge_session, charge_key,
  charge_organization, charge_key_and_organization, charge_rows, charge_session_row, charge_key_row,
  charge_organization_row, org_of_key, has_id, record_transaction,
}
use tkngate.Budget.Ledger.WellFormed.{
  IsWellFormed, with_sessions, update_keys, update_organizations, same_session,
}

module _ (F : Float64) where
  -- A write that leaves these tables alone.
  pub same_tables :
      (l l' : Ledger F)
      → l'.pool_nodes ≡ l.pool_nodes
      → l'.sessions ≡ l.sessions
      → l'.virtual_keys ≡ l.virtual_keys
      → l'.organizations ≡ l.organizations
      → l'.next_key ≡ l.next_key
      → l'.next_organization ≡ l.next_organization
      → IsWellFormed F l
      → IsWellFormed F l'
  same_tables l l' en es ek eo nk norg w = record {
    nodes = rw en w.nodes;
    sessions = rw es w.sessions;
    hashes = rw ek w.hashes;
    key_ids = rw ek w.key_ids;
    key_ids_below = rw (ek, nk) w.key_ids_below;
    names = rw eo w.names;
    org_ids = rw eo w.org_ids;
    org_ids_below = rw (eo, norg) w.org_ids_below;
  }

  charge_session-IsWellFormed :
      (id : Bytes) (cost : F.Float) (l : Ledger F)
      → IsWellFormed F l
      → IsWellFormed F (charge_session F id cost l)
  unfolding charge_session
  charge_session-IsWellFormed id cost l w =
      with_sessions F l (charge_session F id cost l).sessions
        (Distinct-update (same_session F) (λ s. s.session_id =s id) (charge_session_row F cost)
          (λ a b. refl) (λ a b. refl) l.sessions w.sessions)
        w

  pub charge_key-IsWellFormed :
      (hash : Bytes) (cost : F.Float) (l : Ledger F)
      → IsWellFormed F l
      → IsWellFormed F (charge_key F hash cost l)
  unfolding charge_key
  charge_key-IsWellFormed hash cost l w =
      update_keys F l (λ k. k.key_hash =s hash) (charge_key_row F cost) (λ k. refl) (λ k. refl) w

  charge_organization-IsWellFormed :
      (hash : Bytes) (cost : F.Float) (l : Ledger F)
      → IsWellFormed F l
      → IsWellFormed F (charge_organization F hash cost l)
  unfolding charge_organization
  charge_organization-IsWellFormed hash cost l w =
      update_organizations F l (has_id F (org_of_key F hash l.virtual_keys))
        (charge_organization_row F cost) (λ o. refl) (λ o. refl) w

  share_spend-IsWellFormed :
      (c : Cluster) (tx : Transaction F) (l : Ledger F)
      → IsWellFormed F l
      → IsWellFormed F (share_spend F c tx l)
  unfolding share_spend
  share_spend-IsWellFormed c tx l w =
      same_tables l (share_spend F c tx l) (ground arith) (ground arith) (ground arith)
        (ground arith) (ground arith) (ground arith) w

  insert_transaction-IsWellFormed :
      (now : ℕ) (tx : Transaction F) (l : Ledger F)
      → IsWellFormed F l
      → IsWellFormed F (insert_transaction F now tx l)
  unfolding insert_transaction
  insert_transaction-IsWellFormed now tx l w =
      same_tables l (insert_transaction F now tx l) refl refl refl refl refl refl w

  pub exec-IsWellFormed :
      (run : Bool) (f : Ledger F → Ledger F) (l : Ledger F)
      → IsWellFormed F l
      → IsWellFormed F (f l)
      → IsWellFormed F (exec F run f l).1
  exec-IsWellFormed true f l w w' = w'
  exec-IsWellFormed false f l w w' = w

  charge_rows-IsWellFormed :
      (runs : Runs) (tx : Transaction F) (l : Ledger F)
      → IsWellFormed F l
      → IsWellFormed F (charge_rows F runs tx l).1
  unfolding charge_rows charge_key_and_organization
  charge_rows-IsWellFormed runs tx l w = grind (
    arith, charge_session-IsWellFormed, charge_key-IsWellFormed, charge_organization-IsWellFormed,
  )

  pub record_transaction-IsWellFormed :
      (c : Cluster) (runs : Runs) (now : ℕ) (tx : Transaction F) (l : Ledger F)
      → IsWellFormed F l
      → IsWellFormed F (record_transaction F c runs now tx l).1
  unfolding record_transaction
  record_transaction-IsWellFormed c runs now tx l w = ground (
    arith,
    charge_rows-IsWellFormed runs tx (insert_transaction F now tx (share_spend F c tx l)),
    insert_transaction-IsWellFormed now tx (share_spend F c tx l),
    share_spend-IsWellFormed c tx l w,
  )
