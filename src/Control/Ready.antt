-- ===== src/Control/Ready.antt =====
-- The order of the stores of `create`.
use chronicle_rs.Base.{
  ℕ, zero, suc, ◌<◌, ◌≤◌, ◌≡◌, refl, true, false, ok, ltb, if◌then◌else◌, arith, take, take_all,
  inl, inr, length, Bool-cases,
}
use chronicle_rs.Control.{zeroed, create_stores, after_stores, check_ready}

early :
    (segment offset epoch size n : ℕ)
    → n < 12
    → check_ready (after_stores (take n (create_stores segment offset epoch size)) zeroed)
      ≡ ok false
unfolding create_stores after_stores check_ready
early segment offset epoch size zero h = refl
early segment offset epoch size (suc zero) h = refl
early segment offset epoch size (suc (suc zero)) h = refl
early segment offset epoch size (suc (suc (suc zero))) h = refl
early segment offset epoch size (suc (suc (suc (suc zero)))) h = refl
early segment offset epoch size (suc (suc (suc (suc (suc zero))))) h = refl
early segment offset epoch size (suc (suc (suc (suc (suc (suc zero)))))) h = refl
early segment offset epoch size (suc (suc (suc (suc (suc (suc (suc zero))))))) h = refl
early segment offset epoch size (suc (suc (suc (suc (suc (suc (suc (suc zero)))))))) h = refl
early segment offset epoch size (suc (suc (suc (suc (suc (suc (suc (suc (suc zero))))))))) h = refl
early segment offset epoch size (suc (suc (suc (suc (suc (suc (suc (suc (suc (suc zero)))))))))) h =
    refl
early segment offset epoch size
      (suc (suc (suc (suc (suc (suc (suc (suc (suc (suc (suc zero))))))))))) h =
    refl
early segment offset epoch size
      (suc (suc (suc (suc (suc (suc (suc (suc (suc (suc (suc (suc n)))))))))))) h =
    absurd (omega arith)

late :
    (segment offset epoch size : ℕ)
    → check_ready (after_stores (create_stores segment offset epoch size) zeroed) ≡ ok true
unfolding create_stores after_stores check_ready
late segment offset epoch size = refl

length-stores :
    (segment offset epoch size : ℕ) → length (create_stores segment offset epoch size) ≡ 12
unfolding create_stores
length-stores segment offset epoch size = refl

not_early : (n : ℕ) → ltb n 12 ≡ false → 12 ≤ n
not_early n h = ground arith

-- A block under construction is not ready, whatever the stores so far, and it is ready, with no
-- error, from the last store on.
pub check_ready-create_stores :
    (segment offset epoch size n : ℕ)
    → check_ready (after_stores (take n (create_stores segment offset epoch size)) zeroed)
      ≡ ok (if ltb n 12 then false else true)
check_ready-create_stores segment offset epoch size n = elim (Bool-cases (ltb n 12)) [
  | inl h ↦ rw h (early segment offset epoch size n (ground arith))
  | inr h ↦
      let all =
        take_all n (create_stores segment offset epoch size)
          (omega (arith, length-stores segment offset epoch size, not_early n h)) in
      rw (h, all) (late segment offset epoch size)
]
