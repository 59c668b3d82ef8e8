-- ===== src/Bytes/Slices.antt =====
-- What a write to a mapped file changes, and what it leaves alone.
use chronicle_rs.Base.{
  ℕ, zero, suc, ◌+◌, ◌≤◌, ◌≡◌, refl, ap, ◌∙◌, subst, List, [], ◌∷◌, length, length-take,
  length-drop, take, drop, arith,
}
use chronicle_rs.Bytes.{Mem, slice, overlay, write}

length-overlay : (m bs : List ℕ) → length (overlay m bs) ≡ length m
unfolding overlay
length-overlay [] bs = refl
length-overlay (x ∷ m) [] = refl
length-overlay (x ∷ m) (b ∷ bs) = ap suc (length-overlay m bs)

pub length-write : (m : Mem) (off : ℕ) (bs : List ℕ) → length (write m off bs) ≡ length m
unfolding write
length-write m zero bs = length-overlay m bs
length-write [] (suc off) bs = refl
length-write (x ∷ m) (suc off) bs = ap suc (length-write m off bs)

pub length-slice : (m : Mem) (off n : ℕ) → off + n ≤ length m → length (slice m off n) ≡ n
length-slice m off n h = omega (arith, length-take n (drop off m), length-drop off m)

overlay_all : (m bs : List ℕ) → length bs ≡ length m → overlay m bs ≡ bs
unfolding overlay
overlay_all [] [] h = refl
overlay_all [] (b ∷ bs) h = absurd (omega arith)
overlay_all (x ∷ m) [] h = absurd (omega arith)
overlay_all (x ∷ m) (b ∷ bs) h = ap (◌∷◌ b) (overlay_all m bs (omega arith))

pub write_all : (m bs : List ℕ) → length bs ≡ length m → write m 0 bs ≡ bs
unfolding write
write_all m bs h = overlay_all m bs h

take-overlay : (m bs : List ℕ) → length bs ≤ length m → take (length bs) (overlay m bs) ≡ bs
unfolding overlay
take-overlay [] [] h = refl
take-overlay [] (b ∷ bs) h = absurd (omega arith)
take-overlay (x ∷ m) [] h = refl
take-overlay (x ∷ m) (b ∷ bs) h = ap (◌∷◌ b) (take-overlay m bs (omega arith))

-- The bytes written are the bytes read back.
pub slice-write_self :
    (m : Mem) (off : ℕ) (bs : List ℕ)
    → off + length bs ≤ length m
    → slice (write m off bs) off (length bs) ≡ bs
unfolding write
slice-write_self m zero bs h = take-overlay m bs (omega arith)
slice-write_self [] (suc off) bs h = absurd (omega arith)
slice-write_self (x ∷ m) (suc off) bs h = slice-write_self m off bs (omega arith)

drop-overlay : (m bs : List ℕ) (a : ℕ) → length bs ≤ a → drop a (overlay m bs) ≡ drop a m
unfolding overlay
drop-overlay [] bs a h = refl
drop-overlay (x ∷ m) [] a h = refl
drop-overlay (x ∷ m) (b ∷ bs) zero h = absurd (omega arith)
drop-overlay (x ∷ m) (b ∷ bs) (suc a) h = drop-overlay m bs a (omega arith)

-- What lies behind a write is untouched.
pub drop-write :
    (m : Mem) (off : ℕ) (bs : List ℕ) (a : ℕ)
    → off + length bs ≤ a
    → drop a (write m off bs) ≡ drop a m
unfolding write
drop-write m zero bs a h = drop-overlay m bs a (omega arith)
drop-write [] (suc off) bs a h = refl
drop-write (x ∷ m) (suc off) bs zero h = absurd (omega arith)
drop-write (x ∷ m) (suc off) bs (suc a) h = drop-write m off bs a (omega arith)

pub slice-write_after :
    (m : Mem) (off : ℕ) (bs : List ℕ) (a n : ℕ)
    → off + length bs ≤ a
    → slice (write m off bs) a n ≡ slice m a n
slice-write_after m off bs a n h = ap (take n) (drop-write m off bs a h)

-- What lies before a write is untouched.
pub slice-write_before :
    (m : Mem) (off : ℕ) (bs : List ℕ) (a n : ℕ)
    → a + n ≤ off
    → slice (write m off bs) a n ≡ slice m a n
unfolding write overlay
slice-write_before m zero bs zero zero h = refl
slice-write_before m zero bs (suc a) n h = absurd (omega arith)
slice-write_before m zero bs zero (suc n) h = absurd (omega arith)
slice-write_before [] (suc off) bs a n h = refl
slice-write_before (x ∷ m) (suc off) bs (suc a) n h = slice-write_before m off bs a n (omega arith)
slice-write_before (x ∷ m) (suc off) bs zero zero h = refl
slice-write_before (x ∷ m) (suc off) bs zero (suc n) h =
    ap (◌∷◌ x) (slice-write_before m off bs 0 n (omega arith))

take-overlay_le :
    (m bs : List ℕ) (n : ℕ) → length bs ≤ n → take n (overlay m bs) ≡ overlay (take n m) bs
unfolding overlay
take-overlay_le [] bs zero h = refl
take-overlay_le [] bs (suc n) h = refl
take-overlay_le (x ∷ m) [] zero h = refl
take-overlay_le (x ∷ m) [] (suc n) h = refl
take-overlay_le (x ∷ m) (b ∷ bs) zero h = absurd (omega arith)
take-overlay_le (x ∷ m) (b ∷ bs) (suc n) h = ap (◌∷◌ b) (take-overlay_le m bs n (omega arith))

take-write :
    (m : Mem) (a : ℕ) (bs : List ℕ) (n : ℕ)
    → a + length bs ≤ n
    → take n (write m a bs) ≡ write (take n m) a bs
unfolding write
take-write m zero bs n h = take-overlay_le m bs n (omega arith)
take-write [] (suc a) bs zero h = refl
take-write [] (suc a) bs (suc n) h = refl
take-write (x ∷ m) (suc a) bs zero h = absurd (omega arith)
take-write (x ∷ m) (suc a) bs (suc n) h = ap (◌∷◌ x) (take-write m a bs n (omega arith))

write-nil : (a : ℕ) (bs : List ℕ) → write [] a bs ≡ []
unfolding write overlay
write-nil zero bs = refl
write-nil (suc a) bs = refl

-- A write inside a range is a write to the bytes of the range.
pub slice-write_inside :
    (m : Mem) (off a p : ℕ) (bs : List ℕ) (n : ℕ)
    → p ≡ off + a
    → a + length bs ≤ n
    → slice (write m p bs) off n ≡ write (slice m off n) a bs
unfolding write
slice-write_inside m zero a p bs n e h =
    let same : p ≡ a = omega arith in rw same (take-write m a bs n h)
slice-write_inside m (suc off) a zero bs n e h = absurd (omega arith)
slice-write_inside [] (suc off) a (suc p) bs zero e h = rw (write-nil a bs)
slice-write_inside [] (suc off) a (suc p) bs (suc n) e h = rw (write-nil a bs)
slice-write_inside (x ∷ m) (suc off) a (suc p) bs n e h =
    slice-write_inside m off a p bs n (omega arith) h

take-take : (m : Mem) (k n : ℕ) → k ≤ n → take k (take n m) ≡ take k m
take-take m zero n h = refl
take-take m (suc k) zero h = absurd (omega arith)
take-take [] (suc k) (suc n) h = refl
take-take (x ∷ m) (suc k) (suc n) h = ap (◌∷◌ x) (take-take m k n (omega arith))

slice-take : (m : Mem) (a k n : ℕ) → a + k ≤ n → slice (take n m) a k ≡ slice m a k
slice-take m zero k n h = take-take m k n (omega arith)
slice-take m (suc a) k zero h = absurd (omega arith)
slice-take [] (suc a) k (suc n) h = refl
slice-take (x ∷ m) (suc a) k (suc n) h = slice-take m a k n (omega arith)

pub drop-drop : (m : Mem) (a b p : ℕ) → p ≡ b + a → drop a (drop b m) ≡ drop p m
drop-drop m a zero p e = ap (λ k. drop k m) (omega arith)
drop-drop m a (suc b) zero e = absurd (omega arith)
drop-drop [] zero (suc b) (suc p) e = refl
drop-drop [] (suc a) (suc b) (suc p) e = refl
drop-drop (x ∷ m) a (suc b) (suc p) e = drop-drop m a b p (omega arith)

pub slice-slice :
    (m : Mem) (off n a k : ℕ) → a + k ≤ n → slice (slice m off n) a k ≡ slice m (off + a) k
slice-slice m off n a k h =
    slice-take (drop off m) a k n h ∙ ap (take k) (drop-drop m a off (off + a) refl)

pub write-nil_bytes : (m : Mem) (off : ℕ) → write m off [] ≡ m
unfolding write overlay
write-nil_bytes [] zero = refl
write-nil_bytes (x ∷ m) zero = refl
write-nil_bytes [] (suc off) = refl
write-nil_bytes (x ∷ m) (suc off) = ap (◌∷◌ x) (write-nil_bytes m off)

pub slice-write_exact :
    (m : Mem) (off : ℕ) (bs : List ℕ) (n : ℕ)
    → length bs ≡ n
    → off + n ≤ length m
    → slice (write m off bs) off n ≡ bs
slice-write_exact m off bs n e h =
    subst (λ k. slice (write m off bs) off k ≡ bs) e (slice-write_self m off bs (omega arith))
