-- ===== src/Tests/Codec.antt =====
-- A codec that keeps the strings of a map: texts of lines that end with 0, in which every byte is one
-- greater. It shows that the laws of the codec can hold.
use tkngate.Base.{
  ℕ, zero, suc, ◌≡◌, refl, sym, ap, ◌∙◌, inl, inr, false, Option, none, some, List, [], ◌∷◌,
  Bool-cases, arith,
}
use mathlib.Core.Option
use tkngate.Base.Bytes.{Bytes, ◌=s◌}
use tkngate.Base.Maps.{Map, lookup}
use tkngate.Proxy.Json.{Json, null, boolean, number, str, arr, obj, as_string, JsonCodec}
use tkngate.Proxy.Capture.Downgrade.{text_of, IsFaithful}

line : Bytes → Bytes → Bytes
line [] rest = 0 ∷ rest
line (c ∷ s) rest = suc c ∷ line s rest

value_line : Json → Bytes
value_line (str s) = 1 ∷ s
value_line _ = []

unfoldable pub write : Map Json → Bytes
unfolding line value_line
write [] = []
write ((k, v) ∷ m) = line k (line (value_line v) (write m))

longer : ℕ → List Bytes → List Bytes
longer c [] = (c ∷ []) ∷ []
longer c (l ∷ ls) = (c ∷ l) ∷ ls

lines : Bytes → List Bytes
unfolding longer
lines [] = []
lines (zero ∷ b) = [] ∷ lines b
lines (suc c ∷ b) = longer c (lines b)

value_of : Bytes → Json
value_of [] = null
value_of (c ∷ s) = str s

pairs : List Bytes → Map Json
unfolding value_of
pairs [] = []
pairs (k ∷ []) = []
pairs (k ∷ v ∷ ls) = (k, value_of v) ∷ pairs ls

unfoldable pub read : Bytes → Map Json
unfolding lines pairs
read b = pairs (lines b)

lines-line : (s rest : Bytes) → lines (line s rest) ≡ s ∷ lines rest
unfolding lines line longer
lines-line [] rest = refl
lines-line (c ∷ s) rest = ap (λ ls. longer c ls) (lines-line s rest)

-- Of a value only a string is kept.
kept : Json → Json
kept (str s) = str s
kept _ = null

kept_all : Map Json → Map Json
unfolding kept
kept_all [] = []
kept_all ((k, v) ∷ m) = (k, kept v) ∷ kept_all m

value_of-value_line : (v : Json) → value_of (value_line v) ≡ kept v
unfolding value_of value_line kept
value_of-value_line null = refl
value_of-value_line (boolean b) = refl
value_of-value_line (number n) = refl
value_of-value_line (str s) = refl
value_of-value_line (arr xs) = refl
value_of-value_line (obj fs) = refl

read-write : (m : Map Json) → read (write m) ≡ kept_all m
unfolding read write kept_all pairs
read-write [] = refl
read-write ((k, v) ∷ m) =
    rw (lines-line k, lines-line (value_line v))
      (rw (value_of-value_line v) (ap (λ r. (k, kept v) ∷ r) (read-write m)))

as_string-kept : (v : Json) → as_string (kept v) ≡ as_string v
unfolding kept
as_string-kept null = refl
as_string-kept (boolean b) = refl
as_string-kept (number n) = refl
as_string-kept (str s) = refl
as_string-kept (arr xs) = refl
as_string-kept (obj fs) = refl

text_of-kept_all : (k : Bytes) (m : Map Json) → text_of k (kept_all m) ≡ text_of k m
unfolding text_of kept_all lookup
text_of-kept_all k [] = refl
text_of-kept_all k ((j, v) ∷ m) = elim (Bool-cases (j =s k)) [
  | inl here ↦ rw (here, text_of) (as_string-kept v)
  | inr other ↦ rw (other, text_of) (text_of-kept_all k m)
]

map_id : (o : Option Bytes) → Option.map (λ b. b) o ≡ o
map_id none = refl
map_id (some b) = refl

abbrev pub lined : JsonCodec
lined = record {
  unmarshal = λ b. some (read b);
  leaves_nil = λ b. false;
  marshal = λ m. some (write m);
}

pub read_back :
    (m : Map Json) (b : Bytes)
    → some (write m) ≡ some b
    → (m' : Map Json) × (some (read b) ≡ some m')
      × ((k : Bytes) → text_of k m' ≡ Option.map (λ s. s) (text_of k m))
read_back m b e =
    let same : write m ≡ b = ground arith in
    (
      read b,
      refl,
      λ k.
          ap (λ x. text_of k (read x)) (sym same)
          ∙ (ap (λ x. text_of k x) (read-write m)
              ∙ (text_of-kept_all k m ∙ sym (map_id (text_of k m)))),
    )

abbrev pub lined_faithful : IsFaithful lined
lined_faithful = record { to_utf8 = λ b. b; writes = λ m. (write m, refl); reads = read_back }
