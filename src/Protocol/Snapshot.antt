-- ===== src/Protocol/Snapshot.antt =====
-- What `write_l2_snapshot` leaves in the buffer.
use chronicle_rs.Base.{
  ℕ, zero, suc, ◌+◌, ◌*◌, ◌≤◌, ◌≡◌, refl, ap, ap₂, sym, subst, ◌∙◌, List, [], ◌∷◌, ◌++◌, some,
  length, length-append, length-drop, drop, append_assoc, ltb, not-ltb, false, arith,
}
use chronicle_rs.Bytes.{Mem, overlay, write}
use chronicle_rs.Bytes.Slices.{drop-drop}
use chronicle_rs.Protocol.{
  PriceLevelUpdate, SnapshotFields, header_bytes, snapshot_bytes, level_bytes, write_levels,
  snapshot_event_header, snapshot_struct, l2_snapshot_size, write_l2_snapshot,
}
use chronicle_rs.Protocol.Layout.{length-header_bytes, length-snapshot_bytes, length-level_bytes}

overlay_front : (m bs : List ℕ) → length bs ≤ length m → overlay m bs ≡ bs ++ drop (length bs) m
unfolding overlay
overlay_front [] [] h = refl
overlay_front [] (b ∷ bs) h = absurd (omega arith)
overlay_front (x ∷ m) [] h = refl
overlay_front (x ∷ m) (b ∷ bs) h = ap (◌∷◌ b) (overlay_front m bs (omega arith))

-- The next bytes behind what was written.
pub write_next :
    (front m bs : List ℕ) (off n : ℕ)
    → length front ≡ off
    → length bs ≡ n
    → n ≤ length m
    → write (front ++ m) off bs ≡ front ++ (bs ++ drop n m)
unfolding write
write_next [] m bs zero n e k h =
    subst (λ c. overlay m bs ≡ bs ++ drop c m) k (overlay_front m bs (omega arith))
write_next [] m bs (suc off) n e k h = absurd (omega arith)
write_next (x ∷ front) m bs zero n e k h = absurd (omega arith)
write_next (x ∷ front) m bs (suc off) n e k h =
    ap (◌∷◌ x) (write_next front m bs off n (omega arith) k h)

-- The levels of one side, one after the other.
unfoldable pub side_bytes : List PriceLevelUpdate → List ℕ
side_bytes [] = []
side_bytes (l ∷ ls) = level_bytes l ++ side_bytes ls

pub length-side_bytes : (ls : List PriceLevelUpdate) → length (side_bytes ls) ≡ 16 * length ls
unfolding side_bytes
length-side_bytes [] = refl
length-side_bytes (l ∷ ls) = omega (
  arith,
  length-append (level_bytes l) (side_bytes ls),
  length-level_bytes l,
  length-side_bytes ls,
)

write_levels_next :
    (front m : List ℕ) (off : ℕ) (ls : List PriceLevelUpdate)
    → length front ≡ off
    → 16 * length ls ≤ length m
    → write_levels (front ++ m) off ls
      ≡ (front ++ (side_bytes ls ++ drop (16 * length ls) m), off + 16 * length ls)
unfolding write_levels side_bytes
write_levels_next front m off [] e h = ground arith
write_levels_next front m off (l ∷ ls) e h =
    let front' : List ℕ = front ++ level_bytes l in
    let m' : List ℕ = drop 16 m in
    let step : write (front ++ m) off (level_bytes l) ≡ front' ++ m' =
      write_next front m (level_bytes l) off 16 e (length-level_bytes l) (omega arith)
      ∙ sym (append_assoc front (level_bytes l) m') in
    let rest =
      write_levels_next front' m' (off + 16) ls
        (omega (arith, length-append front (level_bytes l), length-level_bytes l, e))
        (omega (arith, length-drop 16 m, h)) in
    let n : ℕ = 16 * length ls in
    let behind : drop n m' ≡ drop (16 * suc (length ls)) m =
      drop-drop m n 16 (16 * suc (length ls)) (omega arith) in
    let bytes : front' ++ (side_bytes ls ++ drop n m')
        ≡ front ++ ((level_bytes l ++ side_bytes ls) ++ drop (16 * suc (length ls)) m) =
      append_assoc front (level_bytes l) (side_bytes ls ++ drop n m')
      ∙ ap (◌++◌ front) (
          sym (append_assoc (level_bytes l) (side_bytes ls) (drop n m'))
          ∙ ap (◌++◌ (level_bytes l ++ side_bytes ls)) behind) in
    let at : off + 16 + n ≡ off + 16 * suc (length ls) = omega arith in
    ap (λ w. write_levels w (off + 16) ls) step ∙ rest ∙ ap₂ (λ a b. (a, b)) bytes at

-- The bytes of a snapshot event.
unfoldable pub snapshot_event :
    (gap0 gap1 : ℕ) → SnapshotFields → (bids asks : List PriceLevelUpdate) → List ℕ
snapshot_event gap0 gap1 s bids asks =
    header_bytes gap0 gap1 (snapshot_event_header s (l2_snapshot_size (length bids) (length asks)))
    ++ (snapshot_bytes (snapshot_struct s (length bids) (length asks))
        ++ (side_bytes bids ++ side_bytes asks))

pub length-snapshot_event :
    (gap0 gap1 : ℕ) (s : SnapshotFields) (bids asks : List PriceLevelUpdate)
    → length (snapshot_event gap0 gap1 s bids asks) ≡ l2_snapshot_size (length bids) (length asks)
unfolding snapshot_event l2_snapshot_size
length-snapshot_event gap0 gap1 s bids asks =
    let h : List ℕ =
      header_bytes gap0 gap1
        (snapshot_event_header s (l2_snapshot_size (length bids) (length asks))) in
    let t : List ℕ = snapshot_bytes (snapshot_struct s (length bids) (length asks)) in
    omega (
      arith,
      length-append h (t ++ (side_bytes bids ++ side_bytes asks)),
      length-append t (side_bytes bids ++ side_bytes asks),
      length-append (side_bytes bids) (side_bytes asks),
      length-header_bytes gap0 gap1
          (snapshot_event_header s (l2_snapshot_size (length bids) (length asks))),
      length-snapshot_bytes (snapshot_struct s (length bids) (length asks)),
      length-side_bytes bids,
      length-side_bytes asks,
    )

-- The two sides, from behind the structures on.
write_sides :
    (front m : List ℕ) (off : ℕ) (bids asks : List PriceLevelUpdate)
    → length front ≡ off
    → 16 * (length bids + length asks) ≤ length m
    → let r = write_levels (front ++ m) off bids in
      (write_levels r.0 r.1 asks).0
      ≡ front ++ ((side_bytes bids ++ side_bytes asks) ++ drop (16 * (length bids + length asks)) m)
write_sides front m off bids asks e h =
    let b : ℕ = 16 * length bids in
    let a : ℕ = 16 * length asks in
    let front' : List ℕ = front ++ side_bytes bids in
    let m' : List ℕ = drop b m in
    let first : write_levels (front ++ m) off bids ≡ (front' ++ m', off + b) =
      write_levels_next front m off bids e (omega arith)
      ∙ ap (λ x. (x, off + b)) (sym (append_assoc front (side_bytes bids) m')) in
    let second =
      write_levels_next front' m' (off + b) asks
        (omega (arith, length-append front (side_bytes bids), length-side_bytes bids, e))
        (omega (arith, length-drop b m, h)) in
    ap (λ r. (write_levels r.0 r.1 asks).0) first
    ∙ ap (λ r. r.0) second
    ∙ append_assoc front (side_bytes bids) (side_bytes asks ++ drop a m')
    ∙ ap (◌++◌ front) (
        sym (append_assoc (side_bytes bids) (side_bytes asks) (drop a m'))
        ∙ ap (◌++◌ (side_bytes bids ++ side_bytes asks))
            (drop-drop m a b (16 * (length bids + length asks)) (omega arith)))

-- The structures before the sides.
write_structures :
    (buf h t : List ℕ)
    → length h ≡ 64
    → length t ≡ 12
    → 76 ≤ length buf
    → write (write buf 0 h) 64 t ≡ (h ++ t) ++ drop 76 buf
write_structures buf h t e k room =
    ap (λ w. write w 64 t) (write_next [] buf h 0 64 refl e (omega arith))
    ∙ write_next h (drop 64 buf) t 64 12 e k (omega (arith, length-drop 64 buf))
    ∙ sym (append_assoc h t (drop 12 (drop 64 buf)))
    ∙ ap (◌++◌ (h ++ t)) (drop-drop buf 12 64 76 refl)

pub l2_snapshot_size_lem : (b a : ℕ) → l2_snapshot_size b a ≡ 76 + 16 * (b + a)
unfolding l2_snapshot_size
l2_snapshot_size_lem b a = omega arith

-- In a buffer that is large enough the event stands at the front, and the rest is as it was.
pub write_l2_snapshot_lem :
    (gap0 gap1 : ℕ) (buf : Mem) (s : SnapshotFields) (bids asks : List PriceLevelUpdate)
    → l2_snapshot_size (length bids) (length asks) ≤ length buf
    → let n = l2_snapshot_size (length bids) (length asks) in
      write_l2_snapshot gap0 gap1 buf s bids asks
      ≡ some (snapshot_event gap0 gap1 s bids asks ++ drop n buf, n)
unfolding write_l2_snapshot snapshot_event
write_l2_snapshot_lem gap0 gap1 buf s bids asks room =
    let n : ℕ = l2_snapshot_size (length bids) (length asks) in
    let pairs : ℕ = 16 * (length bids + length asks) in
    let h : List ℕ = header_bytes gap0 gap1 (snapshot_event_header s n) in
    let t : List ℕ = snapshot_bytes (snapshot_struct s (length bids) (length asks)) in
    let sides : List ℕ = side_bytes bids ++ side_bytes asks in
    let lh = length-header_bytes gap0 gap1 (snapshot_event_header s n) in
    let lt = length-snapshot_bytes (snapshot_struct s (length bids) (length asks)) in
    let size : n ≡ 76 + pairs = l2_snapshot_size_lem (length bids) (length asks) in
    let fits : ltb (length buf) n ≡ false = not-ltb (length buf) n room in
    let first = write_structures buf h t lh lt (omega arith) in
    let all =
      write_sides (h ++ t) (drop 76 buf) 76 bids asks (omega (arith, length-append h t))
        (omega (arith, length-drop 76 buf)) in
    let rest : drop pairs (drop 76 buf) ≡ drop n buf = drop-drop buf pairs 76 n size in
    rw (write_l2_snapshot, fits)
      (ap (λ m. some (m, n))
        (ap (λ w. (write_levels (write_levels w 76 bids).0 (write_levels w 76 bids).1 asks).0) first
          ∙ all
          ∙ ap (λ d. (h ++ t) ++ (sides ++ d)) rest
          ∙ simp append_assoc))
