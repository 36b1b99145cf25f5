-- ===== src/Pool/Drr/Routing.antt =====
-- What `GetNextKey` answers: whom it serves, with which key, and what that costs.
use tkngate.Base.{
  ℕ, ◌+◌, ◌%◌, ◌≡◌, ◌≢◌, inl, inr, refl, sym, ap, ◌∙◌, Bool, ◌&&◌, Option, none, some, List, [],
  ◌∷◌, length, get_elem?, if◌then◌else◌, arith, Option-cases,
}
use tkngate.Base.Int.{ℤ, ◌+ℤ◌}
use tkngate.Base.Bytes.{Bytes, ◌=s◌, =s_refl, =s_iff}
use tkngate.Base.Maps.{Map, insert, lookup-insert}
use tkngate.Float64.{Float64}
use tkngate.Sql.{DbError, Result-cases, ok, err}
use tkngate.Budget.Models.{PoolNode, Ledger}
use tkngate.Budget.Ledger.{is_set}
use tkngate.Budget.Ledger.Accounts.{get_pool_nodes, decrement_pool_quota}
use tkngate.Mesh.Reputation.{ReputationManager}
use tkngate.Pool.Drr.{
  DrrEngine, RouteError, no_keys, no_usable_key, out_of_range, routed, denied, ScanResult, found,
  none_left, bad_index, usage_of, index_of, scan, admission, hand_out, settle, start_index, choose,
  with_nodes, get_next_key,
}
use tkngate.Pool.Drr.Scan.{IsUsable, scan_sound}

usage_of-insert :
    (id j : Bytes) (v : ℤ) (m : Map ℤ)
    → usage_of j (insert id v m) ≡ (if id =s j then v else usage_of j m)
unfolding usage_of
usage_of-insert id j v m = rw (lookup-insert id j v m, usage_of) (ground arith)

index_of-insert : (id : Bytes) (v : ℕ) (m : Map ℕ) → index_of id (insert id v m) ≡ v
unfolding index_of
index_of-insert id v m = rw (lookup-insert id id v m, index_of) (rw (=s_refl id) refl)

module _ (F : Float64) (decrypt : Bytes → Option Bytes) (limit : ℤ)
    (reputation : Option (ReputationManager F)) where
  -- What it means that a session was served with the key: it was admitted, the key is a usable key of the provider's
  -- nodes, the node's quota and the session's bucket are charged with the estimate, and the next
  -- request starts at the node after it.
  pub record IsServed (run_select run_update : Bool) (provider session : Bytes) (tokens : ℤ)
      (l : Ledger F) (d : DrrEngine) (key : Bytes) (l' : Ledger F) (d' : DrrEngine) : Type 0 where
    pub nodes : List PoolNode
    pub position : ℕ
    pub node : PoolNode
    pub selected : get_pool_nodes F run_select provider l ≡ ok nodes
    pub admitted : admission F decrypt limit reputation session d ≡ none
    pub at_position : get_elem? nodes position ≡ some node
    pub usable : IsUsable F decrypt reputation session node key
    pub ledger : l' ≡ decrement_pool_quota F run_update node.node_id tokens l
    pub index : index_of provider d'.current_index ≡ (position + 1) % length nodes
    pub usage :
        (j : Bytes)
        → usage_of j d'.session_usage ≡ (
            if is_set session && (session =s j)
            then usage_of j d.session_usage +ℤ tokens
            else usage_of j d.session_usage)

  routed-injective : (k key : Bytes) → routed k ≡ routed key → k ≡ key
  routed-injective k key e = cc

  denied≢routed : (e : RouteError) (key : Bytes) → denied e ≢ routed key
  denied≢routed e key h = absurd (ground arith)

  settle_found :
      (run : Bool) (provider session : Bytes) (tokens : ℤ) (s : ScanResult) (l : Ledger F)
      (d : DrrEngine) (key : Bytes)
      → (settle F decrypt run provider session tokens s l d).0 ≡ routed key
      → (node : PoolNode) × (next : ℕ) × (s ≡ found node key next)
  unfolding settle
  settle_found run provider session tokens (found node k next) l d key e =
      (node, next, rw (routed-injective k key e) refl)
  settle_found run provider session tokens (none_left next) l d key e =
      absurd (denied≢routed no_usable_key key e)
  settle_found run provider session tokens bad_index l d key e =
      absurd (denied≢routed out_of_range key e)

  settle_index :
      (run : Bool) (provider session : Bytes) (tokens : ℤ) (node : PoolNode) (next : ℕ)
      (l : Ledger F) (d : DrrEngine)
      → index_of provider
          (hand_out F decrypt run provider session tokens node next l d).1.current_index
        ≡ next
  unfolding hand_out
  settle_index run provider session tokens node next l d =
      index_of-insert provider next d.current_index

  settle_usage :
      (run : Bool) (provider session : Bytes) (tokens : ℤ) (node : PoolNode) (next : ℕ)
      (l : Ledger F) (d : DrrEngine) (j : Bytes)
      → usage_of j (hand_out F decrypt run provider session tokens node next l d).1.session_usage
        ≡ (if is_set session && (session =s j)
            then usage_of j d.session_usage +ℤ tokens
            else usage_of j d.session_usage)
  unfolding hand_out
  settle_usage run provider session tokens node next l d j = ground (
    arith,
    =s_iff session j,
    usage_of-insert session j (usage_of session d.session_usage +ℤ tokens) d.session_usage,
  )

  pub choose-refused :
      (run : Bool) (provider session : Bytes) (tokens : ℤ) (n : PoolNode) (rest : List PoolNode)
      (l : Ledger F) (d : DrrEngine) (why : RouteError)
      → admission F decrypt limit reputation session d ≡ some why
      → choose F decrypt limit reputation run provider session tokens (n ∷ rest) l d
        ≡ (denied why, l, d)
  unfolding choose
  choose-refused run provider session tokens n rest l d why e = rw (e, choose) refl

  abbrev pub scan_of : Bytes → Bytes → DrrEngine → List PoolNode → ScanResult
  scan_of provider session d nodes =
      scan F decrypt reputation session nodes (length nodes)
        (start_index F decrypt provider (length nodes) d)

  pub choose-admitted :
      (run : Bool) (provider session : Bytes) (tokens : ℤ) (n : PoolNode) (rest : List PoolNode)
      (l : Ledger F) (d : DrrEngine)
      → admission F decrypt limit reputation session d ≡ none
      → choose F decrypt limit reputation run provider session tokens (n ∷ rest) l d
        ≡ settle F decrypt run provider session tokens (scan_of provider session d (n ∷ rest)) l d
  unfolding choose
  choose-admitted run provider session tokens n rest l d e = rw (e, choose) refl

  -- A session is served only if it is admitted, with a usable key of the provider's nodes, whose
  -- node and whose session are charged.
  choose-IsServed :
      (run_select run_update : Bool) (provider session : Bytes) (tokens : ℤ) (nodes : List PoolNode)
      (l : Ledger F) (d : DrrEngine) (key : Bytes)
      → get_pool_nodes F run_select provider l ≡ ok nodes
      → let out = choose F decrypt limit reputation run_update provider session tokens nodes l d in
        out.0 ≡ routed key
        → IsServed run_select run_update provider session tokens l d key out.1 out.2
  unfolding choose settle
  choose-IsServed run_select run_update provider session tokens [] l d key selected e =
      absurd (denied≢routed no_keys key e)
  choose-IsServed run_select run_update provider session tokens (n ∷ rest) l d key selected e =
      elim (Option-cases (admission F decrypt limit reputation session d)) [
        | inr (why, refused) ↦
            let out = choose-refused run_update provider session tokens n rest l d why refused in
            absurd (denied≢routed why key (sym (ap (λ x. x.0) out) ∙ e))
        | inl admitted ↦
            let nodes = n ∷ rest in
            let out = choose-admitted run_update provider session tokens n rest l d admitted in
            let s = scan_of provider session d nodes in
            let (node, next, hit) =
              settle_found run_update provider session tokens s l d key
                (sym (ap (λ x. x.0) out) ∙ e) in
            let (i, at_i, u, last) =
              scan_sound F decrypt reputation session nodes (length nodes)
                (start_index F decrypt provider (length nodes) d) node key next hit in
            rw (out, hit)
              record {
                nodes = nodes;
                position = i;
                node = node;
                selected = selected;
                admitted = admitted;
                at_position = at_i;
                usable = u;
                ledger = refl;
                index = settle_index run_update provider session tokens node next l d ∙ last;
                usage = settle_usage run_update provider session tokens node next l d;
              }
      ]

  pub get_next_key-selected :
      (run_select run_update : Bool) (provider session : Bytes) (tokens : ℤ) (l : Ledger F)
      (d : DrrEngine) (nodes : List PoolNode)
      → get_pool_nodes F run_select provider l ≡ ok nodes
      → get_next_key F decrypt limit reputation run_select run_update provider session tokens l d
        ≡ choose F decrypt limit reputation run_update provider session tokens nodes l d
  unfolding get_next_key with_nodes
  get_next_key-selected run_select run_update provider session tokens l d nodes e =
      rw (e, get_next_key) refl

  pub get_next_key-failed :
      (run_select run_update : Bool) (provider session : Bytes) (tokens : ℤ) (l : Ledger F)
      (d : DrrEngine) (e : DbError)
      → get_pool_nodes F run_select provider l ≡ err e
      → get_next_key F decrypt limit reputation run_select run_update provider session tokens l d
        ≡ (denied no_keys, l, d)
  unfolding get_next_key with_nodes
  get_next_key-failed run_select run_update provider session tokens l d why e =
      rw (e, get_next_key) refl

  -- If GetNextKey answers with a key, the session was admitted, the key is the decrypted key of a
  -- node of the provider that has quota and passes the premium gate, that node and the session are
  -- charged with the estimate, and the rotation goes on behind the node.
  pub get_next_key-IsServed :
      (run_select run_update : Bool) (provider session : Bytes) (tokens : ℤ) (l : Ledger F)
      (d : DrrEngine) (key : Bytes)
      → let out =
          get_next_key F decrypt limit reputation run_select run_update provider session tokens l
            d in
        out.0 ≡ routed key
        → IsServed run_select run_update provider session tokens l d key out.1 out.2
  unfolding get_next_key
  get_next_key-IsServed run_select run_update provider session tokens l d key e =
      elim (Result-cases (get_pool_nodes F run_select provider l)) [
        | inl (nodes, selected) ↦
            let out =
              get_next_key-selected run_select run_update provider session tokens l d nodes
                selected in
            rw out (
              choose-IsServed run_select run_update provider session tokens nodes l d key selected
                (sym (ap (λ x. x.0) out) ∙ e))
        | inr (why, refused) ↦
            let out =
              get_next_key-failed run_select run_update provider session tokens l d why refused in
            absurd (denied≢routed no_keys key (sym (ap (λ x. x.0) out) ∙ e))
      ]
