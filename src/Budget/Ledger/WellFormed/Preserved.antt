-- ===== src/Budget/Ledger/WellFormed/Preserved.antt =====
-- Each call of internal/budget/ledger.go keeps the unique columns unique.
use tkngate.Base.{
  ◌&&◌, ℕ, suc, refl, ◌<◌, Bool, true, false, List, [], ◌∷◌, ◌++◌, any, Bool-cases, ◌==◌, inl, inr,
}
use tkngate.Base.Int.{ℤ, pos, ltb_ℤ}
use tkngate.Base.Bytes.{Bytes, ◌=s◌}
use tkngate.Float64.{Float64, whole}
use tkngate.Sql.{delete, All-delete, Distinct-delete, Distinct-update}
use tkngate.Budget.Models.{
  BudgetZone, green, PoolNode, VirtualKeyRecord, OrganizationRecord, Ledger,
}
use tkngate.Budget.Ledger.{init_ledger, charge_key, reset, ensure_session, charge_virtual_key}
use tkngate.Budget.Ledger.Accounts.{
  spend_quota, set_zone, add_pool_node, remove_pool_node, decrement_pool_quota, create_organization,
  delete_organization, register_virtual_key, update_virtual_key_zone, revoke_virtual_key,
}
use tkngate.Budget.Ledger.WellFormed.{
  Call, step, run_calls, IsWellFormed, init_ledger-IsWellFormed, append_new, append_next,
  append_below, with_sessions, with_nodes, with_keys, with_organizations, update_keys, same_node,
  same_hash, same_org, same_org_id, same_key_id,
}
use tkngate.Budget.Ledger.WellFormed.Charged.{
  same_tables, exec-IsWellFormed, record_transaction-IsWellFormed, charge_key-IsWellFormed,
}

module _ (F : Float64) where
  reset-IsWellFormed :
      (run run_sessions : Bool) (l : Ledger F)
      → IsWellFormed F l
      → IsWellFormed F (reset F run run_sessions l).1
  unfolding reset
  reset-IsWellFormed true true l w =
      with_sessions F (record l { transactions = [] }) [] tt
        (same_tables F l (record l { transactions = [] }) refl refl refl refl refl refl w)
  reset-IsWellFormed true false l w =
      same_tables F l (record l { transactions = [] }) refl refl refl refl refl refl w
  reset-IsWellFormed false run_sessions l w = w

  ensure_session-IsWellFormed :
      (run : Bool) (now : ℕ) (id : Bytes) (allocated : F.Float) (l : Ledger F)
      → IsWellFormed F l
      → IsWellFormed F (ensure_session F run now id allocated l).1
  unfolding ensure_session
  ensure_session-IsWellFormed false now id allocated l w = w
  ensure_session-IsWellFormed true now id allocated l w =
      elim (Bool-cases (any (λ s. s.session_id =s id) l.sessions)) [
        | inl known ↦ rw known w
        | inr new ↦ rw new (
            with_sessions F l _
              (append_new F (λ s. s.session_id) l.sessions
                (record {
                  session_id = id;
                  allocated_budget = allocated;
                  consumed_budget = whole F 0;
                  current_state = green;
                  created_at = now;
                })
                new w.sessions)
              w)
      ]

  add_pool_node-IsWellFormed :
      (run : Bool) (node : PoolNode) (l : Ledger F)
      → IsWellFormed F l
      → IsWellFormed F (add_pool_node F run node l).1
  unfolding add_pool_node
  add_pool_node-IsWellFormed false node l w = w
  add_pool_node-IsWellFormed true node l w =
      elim (Bool-cases (any (λ n. n.node_id =s node.node_id) l.pool_nodes)) [
        | inl known ↦ rw known w
        | inr new ↦
            rw new
              (with_nodes F l _ (append_new F (λ n. n.node_id) l.pool_nodes node new w.nodes) w)
      ]

  remove_pool_node-IsWellFormed :
      (run : Bool) (id : Bytes) (l : Ledger F)
      → IsWellFormed F l
      → IsWellFormed F (remove_pool_node F run id l).1
  unfolding remove_pool_node
  remove_pool_node-IsWellFormed false id l w = w
  remove_pool_node-IsWellFormed true id l w =
      elim (Bool-cases (any (λ n. n.node_id =s id) l.pool_nodes)) [
        | inl found ↦ rw found (
            with_nodes F l _
              (Distinct-delete (same_node F) (λ n. n.node_id =s id) l.pool_nodes w.nodes) w)
        | inr missing ↦ rw missing w
      ]

  decrement_pool_quota-IsWellFormed :
      (run : Bool) (id : Bytes) (tokens : ℤ) (l : Ledger F)
      → IsWellFormed F l
      → IsWellFormed F (decrement_pool_quota F run id tokens l)
  unfolding decrement_pool_quota
  decrement_pool_quota-IsWellFormed false id tokens l w = w
  decrement_pool_quota-IsWellFormed true id tokens l w =
      with_nodes F l _
        (Distinct-update (same_node F)
          (λ n. n.node_id =s id && ltb_ℤ (pos 0) n.remaining_tokens_quota) (spend_quota F tokens)
          (λ a b. refl) (λ a b. refl) l.pool_nodes w.nodes)
        w

  create_organization-IsWellFormed :
      (run : Bool) (now : ℕ) (name : Bytes) (limit : F.Float) (l : Ledger F)
      → IsWellFormed F l
      → IsWellFormed F (create_organization F run now name limit l).1
  unfolding create_organization
  create_organization-IsWellFormed false now name limit l w = w
  create_organization-IsWellFormed true now name limit l w =
      let o : OrganizationRecord F = record {
        id = l.next_organization;
        name = name;
        budget_limit_usd = limit;
        consumed_usd = whole F 0;
        created_at = now;
      } in
      elim (Bool-cases (any (λ o. o.name =s name) l.organizations)) [
        | inl known ↦ rw known w
        | inr new ↦ rw new (
            with_organizations F l (l.organizations ++ o ∷ []) (suc l.next_organization)
              (append_new F (λ o. o.name) l.organizations o new w.names)
              (append_next F (λ o. o.id) l.organizations o w.org_ids_below w.org_ids)
              (append_below F (λ o. o.id) l.organizations o l.next_organization refl
                w.org_ids_below)
              w)
      ]

  delete_organization-IsWellFormed :
      (run : Bool) (id : ℕ) (l : Ledger F)
      → IsWellFormed F l
      → IsWellFormed F (delete_organization F run id l).1
  unfolding delete_organization
  delete_organization-IsWellFormed false id l w = w
  delete_organization-IsWellFormed true id l w =
      let p : OrganizationRecord F → Bool = λ o. o.id == id in
      with_organizations F l (delete p l.organizations) l.next_organization
        (Distinct-delete (same_org F) p l.organizations w.names)
        (Distinct-delete (same_org_id F) p l.organizations w.org_ids)
        (All-delete (λ o. o.id < l.next_organization) p l.organizations w.org_ids_below) w

  register_virtual_key-IsWellFormed :
      (run : Bool) (now : ℕ) (hash name : Bytes) (allocated : F.Float) (org : ℤ) (providers : Bytes)
      (l : Ledger F)
      → IsWellFormed F l
      → IsWellFormed F (register_virtual_key F run now hash name allocated org providers l).1
  unfolding register_virtual_key
  register_virtual_key-IsWellFormed false now hash name allocated org providers l w = w
  register_virtual_key-IsWellFormed true now hash name allocated org providers l w =
      let k : VirtualKeyRecord F = record {
        id = l.next_key;
        key_hash = hash;
        name = name;
        allocated_budget = allocated;
        consumed_budget = whole F 0;
        org_id = org;
        allowed_providers = providers;
        current_state = green;
        created_at = now;
      } in
      elim (Bool-cases (any (λ k. k.key_hash =s hash) l.virtual_keys)) [
        | inl known ↦ rw known w
        | inr new ↦ rw new (
            with_keys F l (l.virtual_keys ++ k ∷ []) (suc l.next_key)
              (append_new F (λ k. k.key_hash) l.virtual_keys k new w.hashes)
              (append_next F (λ k. k.id) l.virtual_keys k w.key_ids_below w.key_ids)
              (append_below F (λ k. k.id) l.virtual_keys k l.next_key refl w.key_ids_below) w)
      ]

  update_virtual_key_zone-IsWellFormed :
      (run : Bool) (hash : Bytes) (z : BudgetZone) (l : Ledger F)
      → IsWellFormed F l
      → IsWellFormed F (update_virtual_key_zone F run hash z l).1
  unfolding update_virtual_key_zone
  update_virtual_key_zone-IsWellFormed false hash z l w = w
  update_virtual_key_zone-IsWellFormed true hash z l w =
      update_keys F l (λ k. k.key_hash =s hash) (set_zone F z) (λ k. refl) (λ k. refl) w

  revoke_virtual_key-IsWellFormed :
      (run : Bool) (name : Bytes) (l : Ledger F)
      → IsWellFormed F l
      → IsWellFormed F (revoke_virtual_key F run name l).1
  unfolding revoke_virtual_key
  revoke_virtual_key-IsWellFormed false name l w = w
  revoke_virtual_key-IsWellFormed true name l w =
      let p : VirtualKeyRecord F → Bool = λ k. k.name =s name in
      elim (Bool-cases (any p l.virtual_keys)) [
        | inl found ↦ rw found (
            with_keys F l (delete p l.virtual_keys) l.next_key
              (Distinct-delete (same_hash F) p l.virtual_keys w.hashes)
              (Distinct-delete (same_key_id F) p l.virtual_keys w.key_ids)
              (All-delete (λ k. k.id < l.next_key) p l.virtual_keys w.key_ids_below) w)
        | inr missing ↦ rw missing w
      ]

  step-IsWellFormed : (l : Ledger F) (c : Call F) → IsWellFormed F l → IsWellFormed F (step F l c)
  unfolding step charge_virtual_key
  step-IsWellFormed l (Call.record_tx c runs now tx) w =
      record_transaction-IsWellFormed F c runs now tx l w
  step-IsWellFormed l (Call.reset_all run run_sessions) w = reset-IsWellFormed run run_sessions l w
  step-IsWellFormed l (Call.ensure run now id allocated) w =
      ensure_session-IsWellFormed run now id allocated l w
  step-IsWellFormed l (Call.add_node run node) w = add_pool_node-IsWellFormed run node l w
  step-IsWellFormed l (Call.remove_node run id) w = remove_pool_node-IsWellFormed run id l w
  step-IsWellFormed l (Call.decrement run id tokens) w =
      decrement_pool_quota-IsWellFormed run id tokens l w
  step-IsWellFormed l (Call.create_org run now name limit) w =
      create_organization-IsWellFormed run now name limit l w
  step-IsWellFormed l (Call.delete_org run id) w = delete_organization-IsWellFormed run id l w
  step-IsWellFormed l (Call.register run now hash name allocated org providers) w =
      register_virtual_key-IsWellFormed run now hash name allocated org providers l w
  step-IsWellFormed l (Call.charge run hash amount) w =
      exec-IsWellFormed F run (charge_key F hash amount) l w
        (charge_key-IsWellFormed F hash amount l w)
  step-IsWellFormed l (Call.set_key_zone run hash z) w =
      update_virtual_key_zone-IsWellFormed run hash z l w
  step-IsWellFormed l (Call.revoke run name) w = revoke_virtual_key-IsWellFormed run name l w

  run_calls-IsWellFormed :
      (l : Ledger F) (cs : List (Call F)) → IsWellFormed F l → IsWellFormed F (run_calls F l cs)
  unfolding run_calls
  run_calls-IsWellFormed l [] w = w
  run_calls-IsWellFormed l (c ∷ cs) w =
      run_calls-IsWellFormed (step F l c) cs (step-IsWellFormed l c w)

  -- After any sequence of writes to a new database, executed by the driver or refused, no two pool
  -- nodes share a node id, no two sessions a session id, no two virtual keys a hash or an id, no
  -- two organizations a name or an id, and every id is below the counter of its table.
  pub run_calls-init-IsWellFormed :
      (cs : List (Call F)) → IsWellFormed F (run_calls F (init_ledger F) cs)
  run_calls-init-IsWellFormed cs =
      run_calls-IsWellFormed (init_ledger F) cs (init_ledger-IsWellFormed F)
