-- ===== src/Tsync/Race.antt =====
-- `ApplyCorrection` in two threads: the time is read first and written back later, without a lock
-- (src/ara/tsync/tsync.cpp).
use my_auto_sar_ap.Prelude.{◌≡◌, refl, List, length, length-set, ◌∙◌}
use my_auto_sar_ap.Prelude.Int.{ℤ, ◌+ℤ◌, neg_part, tdiv, trem, to_u32}
use my_auto_sar_ap.Tsync.{
  TimeBaseState, TimeBaseId, billion, total_ns, time_base, write, apply_correction,
}
use my_auto_sar_ap.Tsync.Corrections.{base_ns, write_self, split_nonneg}

-- The two loads.
unfoldable pub load_ns : List TimeBaseState → TimeBaseId → ℤ
load_ns bases id = total_ns (time_base bases id).epoch_seconds (time_base bases id).nano_seconds

-- The two stores.
unfoldable pub store_ns : List TimeBaseState → TimeBaseId → ℤ → List TimeBaseState
store_ns bases id cur = write bases id (record (time_base bases id) {
  epoch_seconds = tdiv cur billion;
  nano_seconds = to_u32 (trem cur billion);
})

-- Without another thread in between, the loads and the stores are `ApplyCorrection`.
pub store_ns-load_ns :
    (bases : List TimeBaseState) (id : TimeBaseId) (c : ℤ)
    → apply_correction bases id c ≡ store_ns bases id (load_ns bases id +ℤ c)
unfolding apply_correction store_ns load_ns
store_ns-load_ns bases id c = refl

store_ns-base_ns :
    (bases : List TimeBaseState) (id : TimeBaseId) (cur : ℤ)
    → length bases ≡ 4
    → neg_part cur ≡ 0
    → base_ns (store_ns bases id cur) id ≡ cur
unfolding store_ns
store_ns-base_ns bases id cur four h = rw (write_self bases id _ four) (split_nonneg cur h).0

-- If two threads both load the time before either stores, the correction of the one that stores first
-- is lost.
pub correction-lost :
    (bases : List TimeBaseState) (id : TimeBaseId) (first second : ℤ)
    → length bases ≡ 4
    → neg_part (load_ns bases id +ℤ second) ≡ 0
    → let after = store_ns bases id (load_ns bases id +ℤ first) in
      base_ns (store_ns after id (load_ns bases id +ℤ second)) id ≡ load_ns bases id +ℤ second
unfolding store_ns
correction-lost bases id first second four h =
    store_ns-base_ns _ id (load_ns bases id +ℤ second) (length-set bases _ _ ∙ four) h
