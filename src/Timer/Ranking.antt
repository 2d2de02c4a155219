-- ===== src/Timer/Ranking.antt =====
-- Delegates rank by their times.
use android_device_samsung_a.Base.{◌≡◌, true, false, arith}
use android_device_samsung_a.LocHeap.Order.{IsRanking}
use android_device_samsung_a.LocHeap.Remove.{IsSame}
use android_device_samsung_a.Timer.{Timespec, Delegate, sooner, out_ranks, same}

pub out_ranks-IsRanking : IsRanking out_ranks
unfolding out_ranks
out_ranks-IsRanking = record { asym = λ a b h. ground arith; trans = λ a b c h k. ground arith }

same-eq : (a b : Delegate) → same a b ≡ true → a ≡ b
unfolding same
same-eq a b h =
    let ha : a.addr ≡ b.addr = ground arith in
    let hs : a.future_time.tv_sec ≡ b.future_time.tv_sec = ground arith in
    let hn : a.future_time.tv_nsec ≡ b.future_time.tv_nsec = ground arith in
    λ i. record { addr = ha i; future_time = record { tv_sec = hs i; tv_nsec = hn i } }

pub same_refl : (a : Delegate) → same a a ≡ true
unfolding same
same_refl a = ground arith

pub same-IsSame : IsSame same
same-IsSame = record { sound = same-eq; complete = same_refl }

pub sooner_irrefl : (t : Timespec) → sooner t t ≡ false
sooner_irrefl t = ground arith
