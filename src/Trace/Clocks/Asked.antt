-- ===== src/Trace/Clocks/Asked.antt =====
-- What the connections have asked for in calls of `DeviceClocksManager::SetForcePeak`
-- (source/trace/src/device_clocks.cpp), and what it does to the clocks.
use radeon_developer_panel.Common.{
  ℕ, ◌≤◌, ◌≡◌, refl, sym, subst, ap, ◌∙◌, Bool, true, false, not, List, [], ◌∷◌, map, none, ◌==◌,
  ==_iff, Bool-cases, inl, inr, ◌⊎◌, ◌||◌, if◌then◌else◌, Bytes, arith, All, has_id, insert_id,
  erase_id, count_id, has_id-count_id, count_id-erase_id,
}
use radeon_developer_panel.Trace.Clocks.Gpu.{Gpu, ClocksDriver}
use radeon_developer_panel.Trace.Clocks.Manager.{
  ClocksManager, is_empty, changed_ids, set_force_peak_of, request_gpu_mode,
}
use radeon_developer_panel.Trace.Clocks.Peak.{run, Obeys, at_peak, HasNoCache, run-clocks}

-- What the last call for a connection asks, or the value where there is none.
abbrev pub last_asked : List (ℕ × Bool) → ℕ → Bool → Bool
last_asked [] i b = b
last_asked (c ∷ cs) i b = last_asked cs i (if c.0 == i then c.1 else b)

-- No connection is listed twice.
abbrev IsSetOfIds : List ℕ → Type 0
IsSetOfIds ids = (i : ℕ) → count_id ids i ≤ 1

changed_ids-IsSetOfIds :
    (id : ℕ) (force : Bool) (ids : List ℕ) → IsSetOfIds ids → IsSetOfIds (changed_ids id force ids)
unfolding changed_ids insert_id
changed_ids-IsSetOfIds id force ids h i =
    ground (arith, h i, count_id-erase_id ids id i, has_id-count_id ids id)

has_id-changed_ids :
    (id : ℕ) (force : Bool) (ids : List ℕ) (i : ℕ)
    → IsSetOfIds ids
    → has_id (changed_ids id force ids) i ≡ (if id == i then force else has_id ids i)
unfolding changed_ids insert_id
has_id-changed_ids id force ids i h = ground (
  arith,
  h i,
  h id,
  count_id-erase_id ids id i,
  has_id-count_id ids id,
  has_id-count_id ids i,
  has_id-count_id (erase_id id ids) i,
)

force_peak_ids-set_force_peak_of :
    (driver : ClocksDriver) (id : ℕ) (force : Bool) (m : ClocksManager)
    → (set_force_peak_of driver id force m).1.force_peak_ids ≡ changed_ids id force m.force_peak_ids
unfolding set_force_peak_of
force_peak_ids-set_force_peak_of driver id force m = ground arith

run-last_asked :
    (driver : ClocksDriver) (cs : List (ℕ × Bool)) (m : ClocksManager) (i : ℕ)
    → IsSetOfIds m.force_peak_ids
    → has_id (run driver cs m).force_peak_ids i ≡ last_asked cs i (has_id m.force_peak_ids i)
run-last_asked driver [] m i h = refl
run-last_asked driver (c ∷ cs) m i h =
    let next = (set_force_peak_of driver c.0 c.1 m).1 in
    let e = force_peak_ids-set_force_peak_of driver c.0 c.1 m in
    let keeps = changed_ids-IsSetOfIds c.0 c.1 m.force_peak_ids h in
    run-last_asked driver cs next i (subst IsSetOfIds (sym e) keeps)
    ∙ ap (last_asked cs i)
        (ap (λ ids. has_id ids i) e ∙ has_id-changed_ids c.0 c.1 m.force_peak_ids i h)

-- Whatever the driver answers: after any sequence of calls of `SetForcePeak`, the connections that
-- force the peak mode are exactly those whose last call asked for it.
pub has_id-run :
    (driver : ClocksDriver) (cs : List (ℕ × Bool)) (gs : List Gpu) (i : ℕ)
    → has_id (run driver cs (record { updatable_gpus = gs; force_peak_ids = [] })).force_peak_ids i
      ≡ last_asked cs i false
has_id-run driver cs gs i =
    run-last_asked driver cs (record { updatable_gpus = gs; force_peak_ids = [] }) i
      (λ j. omega arith)

-- Some connection that was called for asked for the peak mode in its last call, of all the calls.
abbrev any_asked : (all some : List (ℕ × Bool)) → Bool
any_asked all [] = false
any_asked all (c ∷ cs) = last_asked all c.0 false || any_asked all cs

abbrev pub still_asked : List (ℕ × Bool) → Bool
still_asked cs = any_asked cs cs

abbrev IsCalled : ℕ → List (ℕ × Bool) → Type 0
IsCalled i [] = ⊥
IsCalled i (c ∷ cs) = (c.0 ≡ i) ⊎ IsCalled i cs

last_asked-IsCalled :
    (cs : List (ℕ × Bool)) (i : ℕ) (b : Bool)
    → last_asked cs i b ≡ true
    → (b ≡ true) ⊎ IsCalled i cs
last_asked-IsCalled [] i b h = inl h
last_asked-IsCalled (c ∷ cs) i b h = elim (Bool-cases (c.0 == i)) [
  | inl e ↦ inr (inl ((==_iff c.0 i).0 e))
  | inr e ↦ elim (last_asked-IsCalled cs i b (rw e at h)) [ inl k ↦ inl k | inr k ↦ inr (inr k) ]
]

any_asked-called :
    (all cs : List (ℕ × Bool)) (i : ℕ)
    → IsCalled i cs
    → last_asked all i false ≡ true
    → any_asked all cs ≡ true
any_asked-called all [] i c h = absurd c
any_asked-called all (d ∷ cs) i (inl e) h = rw (e, h) refl
any_asked-called all (d ∷ cs) i (inr k) h = ground (arith, any_asked-called all cs i k h)

any_asked-some :
    (all cs : List (ℕ × Bool)) → any_asked all cs ≡ true → (i : ℕ) × (last_asked all i false ≡ true)
any_asked-some all [] h = cc
any_asked-some all (c ∷ cs) h = elim (Bool-cases (last_asked all c.0 false)) [
  | inl e ↦ (c.0, e)
  | inr e ↦ any_asked-some all cs (rw e at h)
]

has_id-is_empty : (ids : List ℕ) (i : ℕ) → has_id ids i ≡ true → is_empty ids ≡ false
has_id-is_empty [] i h = cc
has_id-is_empty (j ∷ ids) i h = refl

is_empty-has_id : (ids : List ℕ) → is_empty ids ≡ false → (i : ℕ) × (has_id ids i ≡ true)
is_empty-has_id [] h = cc
is_empty-has_id (i ∷ ids) h = (i, ground arith)

is_empty-run :
    (driver : ClocksDriver) (cs : List (ℕ × Bool)) (gs : List Gpu)
    → is_empty (run driver cs (record { updatable_gpus = gs; force_peak_ids = [] })).force_peak_ids
      ≡ not (still_asked cs)
is_empty-run driver cs gs =
    let ids =
      (run driver cs (record { updatable_gpus = gs; force_peak_ids = [] })).force_peak_ids in
    elim (Bool-cases (still_asked cs)) [
      | inl a ↦
          let (i, h) = any_asked-some cs cs a in
          rw a (has_id-is_empty ids i (has_id-run driver cs gs i ∙ h))
      | inr a ↦ elim (Bool-cases (is_empty ids)) [
        | inl e ↦ rw a e
        | inr e ↦
            let (i, h) = is_empty-has_id ids e in
            let asked = sym (has_id-run driver cs gs i) ∙ h in
            elim (last_asked-IsCalled cs i false asked) [
              | inl k ↦ cc
              | inr k ↦ let b = any_asked-called cs cs i k asked in cc
            ]
      ]
    ]

-- With a driver that obeys, from GPUs that keep no mode: after any sequence of calls of
-- `SetForcePeak`, every GPU that has a peak mode is at it, and keeps the mode that it had, as long as
-- the last call for some connection asked for the peak mode; and every GPU is exactly as it was once
-- none did.
pub run-updatable_gpus :
    (driver : ClocksDriver) (cs : List (ℕ × Bool)) (gs : List Gpu)
    → Obeys driver
    → All HasNoCache gs
    → (run driver cs (record { updatable_gpus = gs; force_peak_ids = [] })).updatable_gpus
      ≡ (if still_asked cs then map at_peak gs else gs)
run-updatable_gpus driver cs gs k h =
    run-clocks driver cs gs (record { updatable_gpus = gs; force_peak_ids = [] }) k h refl
    ∙ ground (arith, is_empty-run driver cs gs)

-- After any sequence of calls of `SetForcePeak`, whatever the driver answers: if the last call for
-- some connection asked for the peak mode, a request of a mode fails, changes no clock and leaves the
-- overlay, whichever GPU it is for.
pub request_gpu_mode-forced :
    (driver : ClocksDriver) (get_id : Bytes → ℕ) (id mode : ℕ) (cs : List (ℕ × Bool))
    (gs : List Gpu) (i : ℕ)
    → last_asked cs i false ≡ true
    → let m = run driver cs (record { updatable_gpus = gs; force_peak_ids = [] }) in
      request_gpu_mode driver get_id id mode m ≡ (false, m, none)
unfolding request_gpu_mode
request_gpu_mode-forced driver get_id id mode cs gs i h =
    let m = run driver cs (record { updatable_gpus = gs; force_peak_ids = [] }) in
    let e : is_empty m.force_peak_ids ≡ false =
      has_id-is_empty m.force_peak_ids i (has_id-run driver cs gs i ∙ h) in
    rw e refl
