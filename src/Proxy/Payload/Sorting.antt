-- ===== src/Proxy/Payload/Sorting.antt =====
-- The order of the tools: sorted by name, a rearrangement of what came, and the same for every order
-- of tools with different names.
use mathlib.Core.List.Perm
use mathlib.Core.List.{Perm, append-nil, perm_middle}
use tkngate.Base.{
  ◌≡◌, ◌≢◌, refl, sym, ap, ◌∙◌, inl, inr, true, false, List, [], ◌∷◌, ◌++◌, arith, Bool-cases,
}
use tkngate.Base.Bytes.{Bytes}
use tkngate.Proxy.Json.{Json}
use tkngate.Proxy.Payload.{
  ◌<s◌, extract_tool_function_name, shift, insertion_sort, turn, sort_tools_by_name,
}

<s_irrefl : (a : Bytes) → (a <s a) ≡ false
unfolding ◌<s◌
<s_irrefl [] = refl
<s_irrefl (x ∷ a) = ground (arith, <s_irrefl a)

<s_trans : (a b c : Bytes) → (a <s b) ≡ true → (b <s c) ≡ true → (a <s c) ≡ true
unfolding ◌<s◌
<s_trans [] b [] h k = ground (arith)
<s_trans [] [] (z ∷ c) h k = refl
<s_trans [] (y ∷ b) (z ∷ c) h k = refl
<s_trans (x ∷ a) [] c h k = cc
<s_trans (x ∷ a) (y ∷ b) [] h k = cc
<s_trans (x ∷ a) (y ∷ b) (z ∷ c) h k = ground (arith, <s_trans a b c)

<s_connex : (a b : Bytes) → (a <s b) ≡ false → (b <s a) ≡ false → a ≡ b
unfolding ◌<s◌
<s_connex [] [] h k = refl
<s_connex [] (y ∷ b) h k = cc
<s_connex (x ∷ a) [] h k = cc
<s_connex (x ∷ a) (y ∷ b) h k = ground (arith, <s_connex a b)

<s_asym : (a b : Bytes) → (a <s b) ≡ true → (b <s a) ≡ false
<s_asym a b h = ground (arith, <s_trans a b a h, <s_irrefl a)

abbrev name : Json → Bytes
name = extract_tool_function_name

-- Two tools of different names are put in place in either order.
shift_comm :
    (x y : Json) (acc : List Json)
    → (name x <s name y) ≡ true
    → shift x (shift y acc) ≡ shift y (shift x acc)
unfolding shift
shift_comm x y [] h = ground (arith, <s_asym (name x) (name y))
shift_comm x y (z ∷ acc) h =
    ground
      (arith, <s_asym (name x) (name y), <s_trans (name x) (name y) (name z), shift_comm x y acc h)

-- Each tool's name is not greater than the next one's.
abbrev pub IsSorted : List Json → Type 0
IsSorted [] = Unit
IsSorted (x ∷ []) = Unit
IsSorted (x ∷ y ∷ r) = ((name y <s name x) ≡ false) × IsSorted (y ∷ r)

abbrev IsDescending : List Json → Type 0
IsDescending [] = Unit
IsDescending (x ∷ []) = Unit
IsDescending (x ∷ y ∷ r) = ((name x <s name y) ≡ false) × IsDescending (y ∷ r)

shift-IsDescending : (x : Json) (acc : List Json) → IsDescending acc → IsDescending (shift x acc)
unfolding shift
shift-IsDescending x [] d = tt
shift-IsDescending x (z ∷ []) d = ground (arith, <s_asym (name x) (name z))
shift-IsDescending x (z ∷ w ∷ acc) d = ground (
  arith,
  <s_asym (name x) (name z),
  <s_asym (name x) (name w),
  shift-IsDescending x (w ∷ acc) d.1,
)

insertion_sort-IsDescending :
    (acc tools : List Json) → IsDescending acc → IsDescending (insertion_sort acc tools)
unfolding insertion_sort
insertion_sort-IsDescending acc [] d = d
insertion_sort-IsDescending acc (x ∷ tools) d =
    insertion_sort-IsDescending (shift x acc) tools (shift-IsDescending x acc d)

abbrev Meets : List Json → List Json → Type 0
Meets [] done = Unit
Meets (x ∷ xs) [] = Unit
Meets (x ∷ xs) (d ∷ done) = (name d <s name x) ≡ false

turn-IsSorted :
    (xs done : List Json)
    → IsDescending xs
    → IsSorted done
    → Meets xs done
    → IsSorted (turn xs done)
unfolding turn
turn-IsSorted [] done d s m = s
turn-IsSorted (x ∷ []) [] d s m = tt
turn-IsSorted (x ∷ []) (e ∷ done) d s m = (m, s)
turn-IsSorted (x ∷ y ∷ xs) [] d s m = turn-IsSorted (y ∷ xs) (x ∷ []) d.1 tt d.0
turn-IsSorted (x ∷ y ∷ xs) (e ∷ done) d s m = turn-IsSorted (y ∷ xs) (x ∷ e ∷ done) d.1 (m, s) d.0

shift-perm : (x : Json) (acc : List Json) → Perm (shift x acc) (x ∷ acc)
unfolding shift
shift-perm x [] = Perm.refl _
shift-perm x (z ∷ acc) = elim (Bool-cases (name x <s name z)) [
  | inl less ↦ rw less (Perm.trans (Perm.cons z (shift-perm x acc)) (Perm.swap x z acc))
  | inr not_less ↦ rw not_less (Perm.refl (x ∷ z ∷ acc))
]

insertion_sort-perm : (acc tools : List Json) → Perm (insertion_sort acc tools) (acc ++ tools)
unfolding insertion_sort
insertion_sort-perm acc [] = rw append-nil (Perm.refl acc)
insertion_sort-perm acc (x ∷ tools) =
    Perm.trans (insertion_sort-perm (shift x acc) tools)
      (Perm.trans (Perm.append_right tools (shift-perm x acc)) (Perm.symm (perm_middle acc tools)))

turn-perm : (xs done : List Json) → Perm (turn xs done) (xs ++ done)
unfolding turn
turn-perm [] done = Perm.refl _
turn-perm (x ∷ xs) done = Perm.trans (turn-perm xs (x ∷ done)) (perm_middle xs done)

Meets-nil : (xs : List Json) → Meets xs []
Meets-nil [] = tt
Meets-nil (x ∷ xs) = tt

-- The sorted list of tools is in order of the names and holds the same tools as often as before.
pub sort_tools_by_name-IsSorted :
    (tools : List Json)
    → IsSorted (sort_tools_by_name tools) × Perm (sort_tools_by_name tools) tools
unfolding sort_tools_by_name
sort_tools_by_name-IsSorted tools =
    let sorted = insertion_sort [] tools in
    (
      turn-IsSorted sorted [] (insertion_sort-IsDescending [] tools tt) tt (Meets-nil sorted),
      Perm.trans (turn-perm sorted []) (rw append-nil (insertion_sort-perm [] tools)),
    )

-- The same tools in another order: neighbours of different names are swapped, any number of times.
pub data Reordered : List Json → List Json → Type 0 where
  same : (xs : List Json) → Reordered xs xs
  swap :
      (before : List Json) (x y : Json) (after : List Json)
      → name x ≢ name y
      → Reordered (before ++ (x ∷ y ∷ after)) (before ++ (y ∷ x ∷ after))
  chain : {xs ys zs : List Json} → Reordered xs ys → Reordered ys zs → Reordered xs zs

shift_either :
    (x y : Json) (acc : List Json) → name x ≢ name y → shift x (shift y acc) ≡ shift y (shift x acc)
shift_either x y acc h = elim (Bool-cases (name x <s name y)) [
  | inl less ↦ shift_comm x y acc less
  | inr not_less ↦ elim (Bool-cases (name y <s name x)) [
    | inl more ↦ sym (shift_comm y x acc more)
    | inr not_more ↦ absurd (h (<s_connex (name x) (name y) not_less not_more))
  ]
]

insertion_sort-append :
    (acc before rest : List Json)
    → insertion_sort acc (before ++ rest) ≡ insertion_sort (insertion_sort acc before) rest
unfolding insertion_sort
insertion_sort-append acc [] rest = refl
insertion_sort-append acc (x ∷ before) rest = insertion_sort-append (shift x acc) before rest

insertion_sort-swap :
    (before : List Json) (x y : Json) (after : List Json)
    → name x ≢ name y
    → insertion_sort [] (before ++ (x ∷ y ∷ after)) ≡ insertion_sort [] (before ++ (y ∷ x ∷ after))
unfolding insertion_sort
insertion_sort-swap before x y after h =
    let acc = insertion_sort [] before in
    insertion_sort-append [] before (x ∷ y ∷ after)
    ∙ (ap (λ a. insertion_sort a after) (sym (shift_either x y acc h))
        ∙ sym (insertion_sort-append [] before (y ∷ x ∷ after)))

-- Tools of different names are sorted to the same list, in whatever order they come.
pub sort-Reordered :
    {xs ys : List Json} → Reordered xs ys → sort_tools_by_name xs ≡ sort_tools_by_name ys
unfolding sort_tools_by_name
sort-Reordered (same xs) = refl
sort-Reordered (swap before x y after h) =
    ap (λ a. turn a []) (insertion_sort-swap before x y after h)
sort-Reordered (chain p q) = sort-Reordered p ∙ sort-Reordered q
