-- ===== src/Kubeadm/Duration.antt =====
-- internal/kubeadm/config.go: a number of days as a time.Duration.
use nanok8s.Base.{ℕ, ◌*◌, ◌%◌, ◌^◌, ◌≤◌, ◌<◌, ◌≡◌, ◌↔◌, arith}
use nanok8s.Base.Int.{pos}
use nanok8s.Kubeadm.{days_duration, day, signed64}

signed64-pos : (w m : ℕ) → signed64 w ≡ pos m → m < 2 ^ 63
signed64-pos w m h = ground arith

exact_below : (n : ℕ) → n ≤ 106751 → days_duration (pos n) ≡ pos (n * day)
unfolding days_duration
exact_below n h = ground arith

below_of_exact : (n : ℕ) → days_duration (pos n) ≡ pos (n * day) → n ≤ 106751
unfolding days_duration
below_of_exact n e = omega (arith, signed64-pos (n * day % 2 ^ 64) (n * day) e)

-- A number of days, as a time.Duration, is that many times 24 hours exactly if it is 106751 or less:
-- above, the multiplication overflows.
pub days_duration-exact : (n : ℕ) → (days_duration (pos n) ≡ pos (n * day)) ↔ (n ≤ 106751)
days_duration-exact n = (below_of_exact n, exact_below n)
