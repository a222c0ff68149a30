-- ===== src/Buffer/Order.antt =====
-- Which frame types may follow what has been gathered.
use chroot_cbccd.Base.{ℕ, ◌≡◌, ◌≢◌, ◌↔◌, ◌⊎◌, true, arith}
use chroot_cbccd.Buffer.{fits_in, is_first, is_later}

-- The checks of the type let exactly these frames through: a first or single frame when nothing
-- has been gathered, a continuation or last frame when something has.
pub fits_in_iff :
    (type total_len : ℕ)
    → (fits_in type total_len ≡ true) ↔ (
        ((total_len ≡ 0) × ((type ≡ 0) ⊎ (type ≡ 1)))
        ⊎ ((total_len ≢ 0) × ((type ≡ 2) ⊎ (type ≡ 3))))
unfolding fits_in is_first is_later
fits_in_iff type total_len = ground arith
