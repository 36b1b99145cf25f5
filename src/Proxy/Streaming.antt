-- ===== src/Proxy/Streaming.antt =====
-- internal/proxy/streaming.go: the body of a streamed response, which counts the tokens and ends the
-- stream when the budget is spent. The scanner's lines are a list, with what it reports at their
-- end. The tokenizer and the JSON codec are parameters; what the body calls of the guard and the
-- ledger is an interface, `Accounting`. Latencies, which only the report of the cloud holds, are left
-- out.
pub mod CutOff
pub mod Budgets
use tkngate.Base.{
  ℕ, suc, zero, ◌+◌, Bool, true, false, not, ◌&&◌, Option, none, some, List, [], ◌∷◌, ◌++◌, leb,
  if◌then◌else◌,
}
use tkngate.Base.Bytes.{Bytes, bytes, ◌=s◌}
use tkngate.Budget.Ledger.{is_set}

abbrev pub take : ℕ → Bytes → Bytes
take zero b = []
take (suc n) [] = []
take (suc n) (x ∷ b) = x ∷ take n b

abbrev pub drop : ℕ → Bytes → Bytes
drop zero b = b
drop (suc n) [] = []
drop (suc n) (x ∷ b) = drop n b

-- strings.HasPrefix and strings.TrimPrefix: what follows the prefix.
unfoldable pub strip_prefix : Bytes → Bytes → Option Bytes
strip_prefix [] b = some b
strip_prefix (x ∷ p) [] = none
strip_prefix (x ∷ p) (y ∷ b) = if leb x y && leb y x then strip_prefix p b else none

-- budget.CheckVirtualKeyBudget and CheckSessionBudget, as far as the zone red goes, and the record
-- of the tokens of the stream in the ledger or, with the cloud, in a report.
pub record Accounting : Type 1 where
  pub World : Type 0
  pub key_is_red : World → Bool × World
  pub session_is_red : World → Bool × World
  pub record_tokens : ℕ → World → World

pub record StreamingResponseBody : Type 0 where
  pub lines : List Bytes
  pub scan_failed : Bool
  pub session_id : Bytes
  pub virtual_key_hash : Bytes
  pub tokens_so_far : ℕ
  pub buffer : Bytes
  pub done : Bool

pub data ReadResult : Type 0 where
  read_bytes : Bytes → ReadResult
  eof scan_error : ReadResult

unfoldable pub new_streaming_response_body :
    List Bytes → Bool → Bytes → Bytes → StreamingResponseBody
new_streaming_response_body lines failed session hash = record {
  lines = lines;
  scan_failed = failed;
  session_id = session;
  virtual_key_hash = hash;
  tokens_so_far = 0;
  buffer = [];
  done = false;
}

abbrev pub done_marker : Bytes
done_marker = bytes "data: [DONE]" ++ 10 ∷ 10 ∷ []

-- `s.buffer.Read(p)` with len(p) = n.
unfoldable pub drain : ℕ → StreamingResponseBody → ReadResult × StreamingResponseBody
drain n s = (read_bytes (take n s.buffer), record s { buffer = drop n s.buffer })

module _ (A : Accounting) (parse : Bytes → Option (List Bytes)) (count : Bytes → ℕ) where
  abbrev pub Outcome : Type 0
  Outcome = ReadResult × StreamingResponseBody × A.World

  -- `recordTransaction`
  unfoldable pub record_transaction : StreamingResponseBody → A.World → A.World
  record_transaction s w = elim s.tokens_so_far [ zero ↦ w | suc n ↦ A.record_tokens (suc n) w ]

  count_all : List Bytes → ℕ
  count_all [] = 0
  count_all (x ∷ xs) = (if x =s [] then 0 else count x) + count_all xs

  -- The tokens of the contents of a chunk.
  unfoldable pub count_chunk : Bytes → StreamingResponseBody → StreamingResponseBody
  unfolding count_all
  count_chunk payload s = elim (parse payload) [
    | none ↦ s
    | some contents ↦ record s { tokens_so_far = s.tokens_so_far + count_all contents }
  ]

  -- The budget of the key or, without a key, of the session.
  unfoldable pub budget_is_red : StreamingResponseBody → A.World → Bool × A.World
  budget_is_red s w =
      if is_set s.virtual_key_hash
      then A.key_is_red w
      else if is_set s.session_id
      then A.session_is_red w
      else (false, w)

  unfoldable pub finish : ℕ → Bytes → StreamingResponseBody → A.World → Outcome
  unfolding drain record_transaction
  finish n last s w =
      let out = drain n record s { buffer = s.buffer ++ last; done = true } in
      (out.0, out.1, record_transaction s w)

  unfoldable pub pass_on : ℕ → Bytes → StreamingResponseBody → A.World → Outcome
  unfolding drain
  pass_on n line s w =
      let out = drain n record s { buffer = s.buffer ++ line ++ 10 ∷ [] } in (out.0, out.1, w)

  -- A line that starts with "data: ".
  unfoldable pub read_data : ℕ → Bytes → Bytes → StreamingResponseBody → A.World → Outcome
  unfolding count_chunk budget_is_red finish pass_on
  read_data n line payload s w =
      if payload =s bytes "[DONE]"
      then finish n (line ++ 10 ∷ 10 ∷ []) s w
      else let s' = count_chunk payload s in
        let checked = budget_is_red s' w in
        if checked.0 then finish n done_marker s' checked.1 else pass_on n line s' checked.1

  unfoldable pub read_line : ℕ → Bytes → StreamingResponseBody → A.World → Outcome
  unfolding read_data pass_on strip_prefix
  read_line n line s w = elim (strip_prefix (bytes "data: ") line) [
    | none ↦ pass_on n line s w
    | some payload ↦ read_data n line payload s w
  ]

  -- At the end of the lines.
  finish_scan : StreamingResponseBody → A.World → Outcome
  unfolding record_transaction
  finish_scan s w = (
    (if s.scan_failed then scan_error else eof),
    record s { done = true },
    record_transaction s w,
  )

  -- `Read`, on the body's buffer, its flag and its lines.
  unfoldable pub read_from :
      Bytes → Bool → List Bytes → ℕ → StreamingResponseBody → A.World → Outcome
  unfolding drain finish_scan read_line
  read_from (b ∷ bs) done lines n s w = let out = drain n s in (out.0, out.1, w)
  read_from [] true lines n s w = (eof, s, w)
  read_from [] false [] n s w = finish_scan s w
  read_from [] false (line ∷ rest) n s w = read_line n line (record s { lines = rest }) w

  unfoldable pub read : ℕ → StreamingResponseBody → A.World → Outcome
  unfolding read_from
  read n s w = read_from s.buffer s.done s.lines n s w
