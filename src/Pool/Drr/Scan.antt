-- ===== src/Pool/Drr/Scan.antt =====
-- The loop over the keys: what it finds is usable, and it finds a usable key if there is one.
use native.Mathlib.Decide.{dec_lt}
use native.Mathlib.Nat.{mod-eq_of_lt, mod-lt}
use tkngate.Base.{
  sym, ◌∙◌, ℕ, suc, zero, ◌+◌, ◌%◌, ◌<◌, ◌≤◌, ◌≡◌, ◌≢◌, ◌⊎◌, inl, inr, false, Option, some, List,
  length, get_elem?, get_elem?-lt, arith, Bool-cases, Option-cases,
}
use tkngate.Base.Int.{pos, leb_ℤ}
use tkngate.Base.Bytes.{Bytes}
use tkngate.Float64.{Float64}
use tkngate.Budget.Models.{PoolNode}
use tkngate.Mesh.Reputation.{ReputationManager}
use tkngate.Pool.Drr.{found, gated, scan}

-- The index after i, in rotation.
next_index :
    (i n : ℕ) → i < n → ((suc i ≡ n) × ((i + 1) % n ≡ 0)) ⊎ ((suc i < n) × ((i + 1) % n ≡ i + 1))
next_index i n h = elim (dec_lt (suc i) n) [
  | yes more ↦ inr (more, mod-eq_of_lt (omega arith))
  | no last ↦ let e : suc i ≡ n = omega arith in inl (e, rw (← e) (grind arith))
]

found-injective :
    (a b : PoolNode) (k l : Bytes) (i j : ℕ)
    → found a k i ≡ found b l j
    → (a ≡ b) × (k ≡ l) × (i ≡ j)
found-injective a b k l i j e = (cc, cc, cc)

-- The rounds left after one more index reach every index that they reached, but this one.
reach_next :
    (idx j n rounds : ℕ)
    → idx < n
    → j < n
    → j ≢ idx
    → ((idx ≤ j) × (j < idx + suc rounds)) ⊎ ((j < idx) × (j + n < idx + suc rounds))
    → (((idx + 1) % n ≤ j) × (j < (idx + 1) % n + rounds))
      ⊎ ((j < (idx + 1) % n) × (j + n < (idx + 1) % n + rounds))
reach_next idx j n rounds inside in_j away reach = elim (next_index idx n inside) [
  | inl (last, e) ↦ rw e (elim reach [
    | inl (a, b) ↦ absurd (omega arith)
    | inr (a, b) ↦ inl (omega arith, omega arith)
  ])
  | inr (more, e) ↦ rw e (elim reach [
    | inl (a, b) ↦ inl (omega arith, omega arith)
    | inr (a, b) ↦ inr (omega arith, omega arith)
  ])
]

module _ (F : Float64) (decrypt : Bytes → Option Bytes) (reputation : Option (ReputationManager F))
    (session : Bytes) where
  -- A key that may be handed to the session: it has quota, it can be decrypted, and the premium gate
  -- is open.
  pub record IsUsable (node : PoolNode) (key : Bytes) : Type 0 where
    pub has_quota : leb_ℤ node.remaining_tokens_quota (pos 0) ≡ false
    pub decrypts : decrypt node.blinded_key_hash ≡ some key
    pub open_gate : gated F decrypt reputation session node ≡ false

  pub scan_step :
      (nodes : List PoolNode) (rounds idx : ℕ) (x : PoolNode)
      → get_elem? nodes idx ≡ some x
      → let next = (idx + 1) % length nodes in
        ((key : Bytes) × IsUsable x key
          × (scan F decrypt reputation session nodes (suc rounds) idx ≡ found x key next))
        ⊎ (((key : Bytes) → ¬ IsUsable x key)
            × (scan F decrypt reputation session nodes (suc rounds) idx
                ≡ scan F decrypt reputation session nodes rounds next))
  unfolding scan
  scan_step nodes rounds idx x at_idx = elim (Bool-cases (leb_ℤ x.remaining_tokens_quota (pos 0))) [
    | inl spent ↦ inr (λ key u. cc (u.has_quota), rw (at_idx, scan) (rw spent))
    | inr quota ↦ elim (Option-cases (decrypt x.blinded_key_hash)) [
      | inl sealed ↦ inr (λ key u. cc (u.decrypts), rw (at_idx, scan) (rw quota (rw sealed)))
      | inr (key, decrypted) ↦ elim (Bool-cases (gated F decrypt reputation session x)) [
        | inl shut ↦
            inr (λ key u. cc (u.open_gate), rw (at_idx, scan) (rw quota (rw decrypted (rw shut))))
        | inr opened ↦ inl (
          key,
          record { has_quota = quota; decrypts = decrypted; open_gate = opened },
          rw (at_idx, scan) (rw quota (rw decrypted (rw opened))),
        )
      ]
    ]
  ]

  -- What is found stands at the index before the one written last.
  pub scan_sound :
      (nodes : List PoolNode) (rounds idx : ℕ) (node : PoolNode) (key : Bytes) (next : ℕ)
      → scan F decrypt reputation session nodes rounds idx ≡ found node key next
      → (i : ℕ) × (get_elem? nodes i ≡ some node)
        × IsUsable node key
        × (next ≡ (i + 1) % length nodes)
  unfolding scan
  scan_sound nodes zero idx node key next e = absurd (ground arith)
  scan_sound nodes (suc rounds) idx node key next e = elim (Option-cases (get_elem? nodes idx)) [
    | inl out ↦ absurd (ground arith)
    | inr (x, at_idx) ↦ elim (scan_step nodes rounds idx x at_idx) [
      | inl (k, u, hit) ↦
          let (en, ek, ei) = found-injective x node k key _ next (sym hit ∙ e) in
          (idx, rw (← en) at_idx, rw (← en, ← ek) u, sym ei)
      | inr (skipped, skip) ↦
          scan_sound nodes rounds ((idx + 1) % length nodes) node key next (sym skip ∙ e)
    ]
  ]

  -- A usable key that the remaining rounds reach, going round from idx, makes the loop find one.
  pub scan_complete :
      (nodes : List PoolNode) (rounds idx j : ℕ) (node : PoolNode) (key : Bytes)
      → idx < length nodes
      → j < length nodes
      → get_elem? nodes j ≡ some node
      → IsUsable node key
      → (((idx ≤ j) × (j < idx + rounds)) ⊎ ((j < idx) × (j + length nodes < idx + rounds)))
      → (x : PoolNode) × (k : Bytes) × (next : ℕ) × (scan F decrypt reputation session nodes rounds
            idx
          ≡ found x k next)
  scan_complete nodes zero idx j node key inside in_j at_j u reach = absurd (ground arith)
  scan_complete nodes (suc rounds) idx j node key inside in_j at_j u reach =
      let (x, at_idx) = get_elem?-lt nodes idx inside in
      elim (scan_step nodes rounds idx x at_idx) [
        | inl (k, usable, hit) ↦ (x, k, (idx + 1) % length nodes, hit)
        | inr (skipped, skip) ↦
            let (y, k, next, e) =
              scan_complete nodes rounds ((idx + 1) % length nodes) j node key
                (mod-lt (idx + 1) (omega arith)) in_j at_j u
                (reach_next idx j (length nodes) rounds inside in_j
                  (λ (same : j ≡ idx). let e : x ≡ node = cc in skipped key (rw e u)) reach) in
            (y, k, next, skip ∙ e)
      ]
