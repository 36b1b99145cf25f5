-- ===== src/Proxy/Streaming/CutOff.antt =====
-- A stream that is cut off delivers nothing more of the provider.
use tkngate.Base.{
  ℕ, suc, zero, ◌≡◌, refl, ap, ◌⊎◌, inl, inr, ◌∙◌, Bool, true, false, Option, some, List, [], ◌∷◌,
  ◌++◌, arith,
}
use tkngate.Base.Bytes.{Bytes, bytes, ◌=s◌}
use tkngate.Proxy.Streaming.{
  take, drop, strip_prefix, Accounting, StreamingResponseBody, ReadResult, read_bytes, eof,
  scan_error, done_marker, drain, record_transaction, count_chunk, budget_is_red, finish, read_data,
  read_line, read_from, read,
}

-- What reaches the agent.
abbrev pub bytes_of : ReadResult → Bytes
bytes_of (read_bytes b) = b
bytes_of eof = []
bytes_of scan_error = []

take-drop : (n : ℕ) (b : Bytes) → take n b ++ drop n b ≡ b
take-drop zero b = refl
take-drop (suc n) [] = refl
take-drop (suc n) (x ∷ b) = ap (λ r. x ∷ r) (take-drop n b)

append_assoc : (a b c : Bytes) → (a ++ b) ++ c ≡ a ++ (b ++ c)
append_assoc [] b c = refl
append_assoc (x ∷ a) b c = ap (λ r. x ∷ r) (append_assoc a b c)

bytes_cases : (b : Bytes) → (b ≡ []) ⊎ ((x : ℕ) × (r : Bytes) × (b ≡ x ∷ r))
bytes_cases [] = inl refl
bytes_cases (x ∷ r) = inr (x, r, refl)

module _ (A : Accounting) (parse : Bytes → Option (List Bytes)) (count : Bytes → ℕ) where
  -- The reads of buffers of these lengths, one after another, and all that they return.
  unfoldable pub run_reads :
      List ℕ → StreamingResponseBody → A.World → Bytes × StreamingResponseBody × A.World
  run_reads [] s w = ([], s, w)
  run_reads (n ∷ ns) s w =
      let out = read A parse count n s w in
      let later = run_reads ns out.1 out.2 in (bytes_of out.0 ++ later.0, later.1, later.2)

  -- Of the body, what is still to come: the rest of the buffer.
  pub record IsEnding (whole : Bytes) (lines : List Bytes) (w : A.World)
      (out : Bytes × StreamingResponseBody × A.World) : Type 0 where
    pub delivered : out.0 ++ out.1.buffer ≡ whole
    pub unread : out.1.lines ≡ lines
    pub world : out.2 ≡ w

  read_open :
      (n : ℕ) (s : StreamingResponseBody) (w : A.World) (b : Bytes) (d : Bool) (ls : List Bytes)
      → s.buffer ≡ b
      → s.done ≡ d
      → s.lines ≡ ls
      → read A parse count n s w ≡ read_from A parse count b d ls n s w
  unfolding read
  read_open n s w b d ls eb ed el =
      ap (λ x. read_from A parse count x s.done s.lines n s w) eb
      ∙ (ap (λ x. read_from A parse count b x s.lines n s w) ed
          ∙ ap (λ x. read_from A parse count b d x n s w) el)

  read_done :
      (n : ℕ) (s : StreamingResponseBody) (w : A.World)
      → s.done ≡ true
      → let out = read A parse count n s w in
        (bytes_of out.0 ++ out.1.buffer ≡ s.buffer)
        × (out.1.lines ≡ s.lines)
        × (out.2 ≡ w)
        × (out.1.done ≡ true)
  unfolding read_from drain
  read_done n s w d = elim (bytes_cases s.buffer) [
    | inl empty ↦ rw (read_open n s w [] true s.lines empty d refl) (refl, refl, refl, d)
    | inr (x, r, more) ↦
        rw (read_open n s w (x ∷ r) s.done s.lines more refl refl)
          (take-drop n s.buffer, refl, refl, d)
  ]

  -- Once the stream is done, reads only empty the buffer.
  done_drains :
      (ns : List ℕ) (s : StreamingResponseBody) (w : A.World)
      → s.done ≡ true
      → IsEnding s.buffer s.lines w (run_reads ns s w)
  unfolding run_reads
  done_drains [] s w d = record { delivered = refl; unread = refl; world = refl }
  done_drains (n ∷ ns) s w d =
      let out = read A parse count n s w in
      let (now, lines, world, still) = read_done n s w d in
      let rest = done_drains ns out.1 out.2 still in
      let later = run_reads ns out.1 out.2 in
      record {
        delivered =
            append_assoc (bytes_of out.0) later.0 later.1.buffer
            ∙ (ap (λ x. bytes_of out.0 ++ x) rest.delivered ∙ now);
        unread = rest.unread ∙ lines;
        world = rest.world ∙ world;
      }

  -- The read that ends a stream with these last bytes, and every read after it.
  finish_drains :
      (n : ℕ) (ns : List ℕ) (last : Bytes) (s : StreamingResponseBody) (w : A.World)
      → let out = finish A parse count n last s w in
        let later = run_reads ns out.1 out.2 in
        IsEnding
          (s.buffer ++ last)
          s.lines
          (record_transaction A parse count s w)
          (bytes_of out.0 ++ later.0, later.1, later.2)
  unfolding finish drain
  finish_drains n ns last s w =
      let out = finish A parse count n last s w in
      let later = run_reads ns out.1 out.2 in
      let rest = done_drains ns out.1 out.2 refl in
      record {
        delivered =
            append_assoc (bytes_of out.0) later.0 later.1.buffer
            ∙ (ap (λ x. bytes_of out.0 ++ x) rest.delivered ∙ take-drop n (s.buffer ++ last));
        unread = rest.unread;
        world = rest.world;
      }

  count_chunk-keeps :
      (payload : Bytes) (s : StreamingResponseBody)
      → ((count_chunk A parse count payload s).buffer ≡ s.buffer)
        × ((count_chunk A parse count payload s).lines ≡ s.lines)
  unfolding count_chunk
  count_chunk-keeps payload s = (ground arith, ground arith)

  read_cut :
      (n : ℕ) (s : StreamingResponseBody) (w : A.World) (line payload : Bytes) (rest : List Bytes)
      → s.buffer ≡ []
      → s.done ≡ false
      → s.lines ≡ line ∷ rest
      → strip_prefix (bytes "data: ") line ≡ some payload
      → (payload =s bytes "[DONE]") ≡ false
      → let s' = count_chunk A parse count payload (record s { lines = rest }) in
        let checked = budget_is_red A parse count s' w in
        checked.0 ≡ true
        → read A parse count n s w ≡ finish A parse count n done_marker s' checked.1
  unfolding read_from read_line read_data
  read_cut n s w line payload rest empty going next stripped other red =
      read_open n s w [] false (line ∷ rest) empty going next
      ∙ rw (stripped, read_line) (rw (other, read_data) (rw red refl))

  -- A stream whose budget is red at a data line other than the last ends there: whatever the buffers
  -- of the reads, the agent gets the end marker and nothing of the line or of those after it, no
  -- further line is read, and the tokens so far are recorded once.
  pub cut_off :
      (n : ℕ) (ns : List ℕ) (s : StreamingResponseBody) (w : A.World) (line payload : Bytes)
      (rest : List Bytes)
      → s.buffer ≡ []
      → s.done ≡ false
      → s.lines ≡ line ∷ rest
      → strip_prefix (bytes "data: ") line ≡ some payload
      → (payload =s bytes "[DONE]") ≡ false
      → let s' = count_chunk A parse count payload (record s { lines = rest }) in
        let checked = budget_is_red A parse count s' w in
        checked.0 ≡ true
        → IsEnding done_marker rest
            (record_transaction A parse count s' checked.1)
            (run_reads (n ∷ ns) s w)
  unfolding run_reads
  cut_off n ns s w line payload rest empty going next stripped other red =
      let s0 : StreamingResponseBody = record s { lines = rest } in
      let s' = count_chunk A parse count payload s0 in
      let checked = budget_is_red A parse count s' w in
      let eq : read A parse count n s w ≡ finish A parse count n done_marker s' checked.1 =
        read_cut n s w line payload rest empty going next stripped other red in
      let kept = count_chunk-keeps payload s0 in
      let ended = finish_drains n ns done_marker s' checked.1 in
      rw eq record {
        delivered = ended.delivered ∙ ap (λ x. x ++ done_marker) (kept.0 ∙ empty);
        unread = ended.unread ∙ kept.1;
        world = ended.world;
      }
