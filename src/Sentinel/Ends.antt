-- ===== src/Sentinel/Ends.antt =====
-- The loop of `LaunchMonitor` of srv/sentinel.go ends.
use erina.Base.{
  ℕ, zero, suc, ◌+◌, ◌<◌, ◌==◌, ◌≢◌, arith, List, Option, none, some, length, Bool-cases, inl, inr,
  zero,
}
use erina.Words.{Bytes, of_le, slice}
use erina.Wire.Stream.{Read, read, failed, unfinished, read_full}
use erina.Wire.Resync.{Holds, Holds-imp, Holds-read_full}
use erina.Sentinel.Receive.{
  End, closed, panicked, spinning, Push, on_id, on_payload, on_head, receive, monitor,
}

-- The loop does not run out of fuel.
abbrev Ended : List Push × End → Type 0
Ended r = r.1 ≢ spinning

closed-ne-spinning : closed ≢ spinning
closed-ne-spinning e = ground arith

panicked-ne-spinning : panicked ≢ spinning
panicked-ne-spinning e = ground arith

module _ (again : Bytes → List Push × End) (n : ℕ)
    (later : (s : Bytes) → length s < n → Ended (again s)) where
  on_id-Ended :
      (payload stream : Bytes) (id : Option Bytes)
      → length stream < n
      → Ended (on_id again payload stream id)
  on_id-Ended payload stream none h = panicked-ne-spinning
  on_id-Ended payload stream (some id) h = later stream h

  on_payload-Ended :
      (r : Read Bytes) → Holds (λ _ left. length left < n) r → Ended (on_payload again r)
  on_payload-Ended failed h = closed-ne-spinning
  on_payload-Ended unfinished h = absurd h
  on_payload-Ended (read payload stream) h = on_id-Ended payload stream (slice payload 0 8) h

  on_head-Ended : (r : Read Bytes) → Holds (λ _ left. length left < n) r → Ended (on_head again r)
  on_head-Ended failed h = closed-ne-spinning
  on_head-Ended unfinished h = absurd h
  on_head-Ended (read h4 stream) h = elim (Bool-cases (of_le h4 == 0)) [
    | inl e ↦ rw e (later stream h)
    | inr e ↦ rw e (
        on_payload-Ended (read_full (of_le h4) stream) (
          Holds-imp _ (λ _ left. length left < n) (read_full (of_le h4) stream)
            (λ a left k. omega arith) (Holds-read_full (of_le h4) stream)))
  ]

receive-Ended : (fuel : ℕ) (stream : Bytes) → length stream < fuel → Ended (receive fuel stream)
unfolding receive
receive-Ended zero stream h = absurd (omega arith)
receive-Ended (suc fuel) stream h =
    on_head-Ended (receive fuel) fuel (λ s k. receive-Ended fuel s k) (read_full 4 stream)
      (Holds-imp _ (λ _ left. length left < fuel) (read_full 4 stream) (λ a left k. omega arith)
        (Holds-read_full 4 stream))

-- On any bytes: the loop of `LaunchMonitor` ends, at the end of the bytes or with a panic.
pub monitor-ends : (stream : Bytes) → (monitor stream).1 ≢ spinning
monitor-ends stream = receive-Ended (length stream + 1) stream (omega arith)
