-- ===== src/Tail/Scan.antt =====
-- The scan of a segment's tail ends, and finds the end of the records that were written.
use chronicle_rs.Base.{
  ℕ, zero, suc, ◌+◌, ◌-◌, ◌^◌, ◌<◌, ◌≤◌, ◌≡◌, refl, sym, ap, ◌∙◌, subst, List, [], ◌∷◌, some, false,
  length, take, drop, arith, ltb, ◌==◌, ◌⊎◌, inl, inr, All,
}
use chronicle_rs.Bytes.{Mem, zeros, from_le}
use chronicle_rs.Header.{max_payload_len, load_commit_len, payload_len_from_commit}
use chronicle_rs.Store.Prepare.{from_le-zeros}
use chronicle_rs.Writer.{record_len_of}
use chronicle_rs.Writer.Append.{Msg, msg_len, Fits, RecordAt, record_len_bounds}
use chronicle_rs.Cursor.Records.{commit_word_lem, payload_len_lem}
use chronicle_rs.Log.Laid.{Laid}
use chronicle_rs.Tail.{
  TailRound, no_room, no_commit, damaged, advance, tail_round, any_nonzero, scan_loop, repair_loop,
}

-- A round that goes on leaves at least a header behind, and stays in the segment.
tail_round_advance :
    (m : Mem) (size off n : ℕ)
    → size < 2 ^ 63
    → tail_round m size off ≡ advance n
    → (64 ≤ n) × (off + n ≤ size)
unfolding tail_round payload_len_from_commit record_len_of
tail_round_advance m size off n small e =
    let len : ℕ = load_commit_len m off - 1 in ground (arith, record_len_bounds len)

-- The loop of the repair ends inside the segment, not before where it began.
abbrev pub RepairEnds : ℕ → Mem → ℕ → ℕ → Type 0
RepairEnds fuel m size off =
    (e : ℕ) × (repair_loop fuel m size off ≡ some e) × (off ≤ e) × (e ≤ size)

repair_round :
    (fuel : ℕ) (m : Mem) (size off : ℕ) (r : TailRound)
    → size < 2 ^ 63
    → off ≤ size
    → size < off + suc fuel
    → ((off' : ℕ) → off' ≤ size → size < off' + fuel → RepairEnds fuel m size off')
    → tail_round m size off ≡ r
    → RepairEnds (suc fuel) m size off
unfolding repair_loop
repair_round fuel m size off no_room small le enough next h =
    (off, rw (repair_loop, h) refl, omega arith, le)
repair_round fuel m size off no_commit small le enough next h =
    (off, rw (repair_loop, h) refl, omega arith, le)
repair_round fuel m size off damaged small le enough next h =
    (off, rw (repair_loop, h) refl, omega arith, le)
repair_round fuel m size off (advance n) small le enough next h =
    let (lo, hi) = tail_round_advance m size off n small h in
    let (e, out, from, to) = next (off + n) hi (omega arith) in
    (e, rw (repair_loop, h) out, omega arith, to)

-- On any bytes, the loop of the repair ends, at a place in the segment that is not before where it
-- began: fuel above the bytes that are left is enough.
pub repair_loop-total :
    (fuel : ℕ) (m : Mem) (size off : ℕ)
    → size < 2 ^ 63
    → off ≤ size
    → size < off + fuel
    → RepairEnds fuel m size off
repair_loop-total zero m size off small le enough = absurd (omega arith)
repair_loop-total (suc fuel) m size off small le enough =
    repair_round fuel m size off (tail_round m size off) small le enough
      (λ off' le' enough'. repair_loop-total fuel m size off' small le' enough') refl

any_nonzero-zeros : (k n : ℕ) → any_nonzero (take k (zeros n)) ≡ false
unfolding any_nonzero
any_nonzero-zeros zero n = refl
any_nonzero-zeros (suc k) zero = refl
any_nonzero-zeros (suc k) (suc n) = any_nonzero-zeros k n

module _ (crc32 : List ℕ → ℕ) where
  tail_round_record :
      (m : Mem) (off seq : ℕ) (p : Msg)
      → length p.payload ≤ max_payload_len
      → RecordAt crc32 m off seq p
      → tail_round m (length m) off ≡ advance (msg_len p)
  unfolding tail_round record_len_of
  tail_round_record m off seq p hp r =
      let n : ℕ = length p.payload in
      let bounds = record_len_bounds n hp in
      let room : ltb (length m) (off + 64) ≡ false = ground (arith, r.within, bounds.0) in
      let nonzero : (n + 1 == 0) ≡ false = ground arith in
      let fits : ltb max_payload_len n ≡ false = ground arith in
      let inside : ltb (length m) (off + msg_len p) ≡ false = ground (arith, r.within) in
      rw
        (
          room,
          commit_word_lem crc32 m off seq p hp r,
          nonzero,
          payload_len_lem crc32 n,
          fits,
          inside,
        )
        refl

  tail_round-zeros :
      (m : Mem) (off k : ℕ)
      → drop off m ≡ zeros k
      → (tail_round m (length m) off ≡ no_room) ⊎ (tail_round m (length m) off ≡ no_commit)
  unfolding tail_round load_commit_len
  tail_round-zeros m off k z =
      let word = ap (λ t. from_le (take 4 t)) z ∙ from_le-zeros 4 k in ground (arith, word)

  -- The scan of a segment that holds the records of `ps` and zeros behind them ends behind the last
  -- record and reports nothing unfinished.
  pub scan_loop-Laid :
      (fuel : ℕ) (m : Mem) (off s e k : ℕ) (ps : List Msg)
      → Laid crc32 m off s ps e
      → All (Fits (length m)) ps
      → drop e m ≡ zeros k
      → length ps < fuel
      → scan_loop fuel m (length m) off ≡ some (e, false)
  unfolding scan_loop
  scan_loop-Laid zero m off s e k ps l fits z enough = absurd (omega arith)
  scan_loop-Laid (suc fuel) m off s e k [] l fits z enough =
      let here : drop off m ≡ zeros k = subst (λ o. drop o m ≡ zeros k) (sym l) z in
      let quiet = ap (λ t. any_nonzero (take 64 t)) here ∙ any_nonzero-zeros 64 k in
      elim (tail_round-zeros m off k here) [
        | inl h ↦ rw (scan_loop, h) (ap (λ o. some (o, false)) l)
        | inr h ↦ rw (scan_loop, h, quiet) (ap (λ o. some (o, false)) l)
      ]
  scan_loop-Laid (suc fuel) m off s e k (p ∷ ps) (r, l) (f, fs) z enough =
      rw (scan_loop, tail_round_record m off s p f.payload_fits r)
        (scan_loop-Laid fuel m (off + msg_len p) (s + 1) e k ps l fs z (omega arith))
