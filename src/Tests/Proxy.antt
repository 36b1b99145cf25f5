-- ===== src/Tests/Proxy.antt =====
-- A stream of three lines, whose budget is red from the start.
use tkngate.Base.{ℕ, ◌≡◌, refl, true, false, Option, some, List, [], ◌∷◌}
use tkngate.Base.Bytes.{Bytes, bytes, ◌=s◌}
use tkngate.Proxy.Streaming.{
  strip_prefix, Accounting, StreamingResponseBody, new_streaming_response_body, done_marker,
  record_transaction, count_chunk, budget_is_red,
}
use tkngate.Proxy.Streaming.CutOff.{run_reads, IsEnding, cut_off}
use tkngate.Budget.Ledger.{is_set}

-- The recorded numbers of tokens.
abbrev spent : Accounting
spent = record {
  World = List ℕ;
  key_is_red = λ w. (true, w);
  session_is_red = λ w. (false, w);
  record_tokens = λ n w. n ∷ w;
}

abbrev parse : Bytes → Option (List Bytes)
parse b = some (b ∷ [])

abbrev count : Bytes → ℕ
count b = 3

abbrev body : StreamingResponseBody
body =
    new_streaming_response_body (bytes "data: a" ∷ bytes "" ∷ bytes "data: b" ∷ []) false
      (bytes "s") (bytes "h")

a_stripped : strip_prefix (bytes "data: ") (bytes "data: a") ≡ some (bytes "a")
unfolding strip_prefix
a_stripped = refl

a_other : (bytes "a" =s bytes "[DONE]") ≡ false
unfolding ◌=s◌
a_other = refl

abbrev left : StreamingResponseBody
left = record body { lines = bytes "" ∷ bytes "data: b" ∷ [] }

a_red :
    (budget_is_red spent parse count (count_chunk spent parse count (bytes "a") left) []).0 ≡ true
unfolding budget_is_red count_chunk is_set new_streaming_response_body
a_red = refl

cut_off_example :
    let s = count_chunk spent parse count (bytes "a") left in
    IsEnding spent parse count done_marker
      (bytes "" ∷ bytes "data: b" ∷ [])
      (record_transaction spent parse count s (budget_is_red spent parse count s []).1)
      (run_reads spent parse count (4 ∷ 100 ∷ 100 ∷ []) body [])
unfolding new_streaming_response_body
cut_off_example =
    cut_off spent parse count 4 (100 ∷ 100 ∷ []) body [] (bytes "data: a") (bytes "a")
      (bytes "" ∷ bytes "data: b" ∷ []) refl refl refl a_stripped a_other a_red
