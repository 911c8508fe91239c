-- ===== src/Command/States.antt =====
-- The states that the calls of driver/command.c take a command buffer through.
use rpi_vk_driver.Base.{
  ℕ, ◌≡◌, refl, ap, ◌∙◌, ◌⊎◌, inl, inr, Bool, true, false, not, List, [], ◌∷◌, ◌==◌, if◌then◌else◌,
  ◌&◌, Bool-cases, ◌||◌, u32_max,
}
use rpi_vk_driver.Command.{
  State, all_dirty, is_recording, CommandBuffer, is_pending, is_executable, reset, begin,
  end_recording, submit_begin, submit_end, empty_lists, empty_list, Lists,
}
use rpi_vk_driver.ControlList.{ControlList}

-- The command buffer with another list of handles
abbrev pub with_handles : CommandBuffer → ControlList → CommandBuffer
with_handles cb h = record cb { lists = record cb.lists { handles_cl = h } }

-- A call on one command buffer. A submission is a batch of it alone; the walk over its jobs may leave any
-- list of handles, which is the argument.
pub data Call : Type 0 where
  begin_call : ℕ → Call
  end_call : Call
  reset_call : Call
  submit_call : ControlList → Call

abbrev pub apply : Bool → Call → CommandBuffer → CommandBuffer
apply reset_able (Call.begin_call flags) cb = begin reset_able flags cb
apply reset_able Call.end_call cb = end_recording cb
apply reset_able Call.reset_call cb = reset cb
apply reset_able (Call.submit_call h) cb = submit_end (with_handles (submit_begin cb) h)

abbrev pub run : Bool → List Call → CommandBuffer → CommandBuffer
run reset_able [] cb = cb
run reset_able (c ∷ cs) cb = run reset_able cs (apply reset_able c cb)

state_cases :
    (s : State)
    → (s ≡ State.initial)
      ⊎ (s ≡ State.recording)
      ⊎ (s ≡ State.executable)
      ⊎ (s ≡ State.pending)
      ⊎ (s ≡ State.invalid)
state_cases State.initial = inl refl
state_cases State.recording = inr (inl refl)
state_cases State.executable = inr (inr (inl refl))
state_cases State.pending = inr (inr (inr (inl refl)))
state_cases State.invalid = inr (inr (inr (inr refl)))

-- `VK_COMMAND_BUFFER_USAGE_ONE_TIME_SUBMIT_BIT`
abbrev pub is_one_time : ℕ → Bool
is_one_time flags = not ((flags & 1) == 0)

-- What a submission makes of a state
abbrev pub submitted : State → Bool → State
submitted State.executable one_time = if one_time then State.invalid else State.executable
submitted State.pending one_time = if one_time then State.invalid else State.executable
submitted State.initial one_time = State.initial
submitted State.recording one_time = State.recording
submitted State.invalid one_time = State.invalid

pub submit_one :
    (cb : CommandBuffer)
    → submit_end (submit_begin cb)
      ≡ record cb { state = submitted cb.state (is_one_time cb.usage_flags) }
unfolding submit_end submit_begin
submit_one cb = elim (state_cases cb.state) [
  | inl e ↦ rw e refl
  | inr (inl e) ↦ rw e refl
  | inr (inr (inl e)) ↦ elim (Bool-cases ((cb.usage_flags & 1) == 0)) [
    | inl t ↦ rw (e, t) refl
    | inr f ↦ rw (e, f) refl
  ]
  | inr (inr (inr (inl e))) ↦ elim (Bool-cases ((cb.usage_flags & 1) == 0)) [
    | inl t ↦ rw (e, t) refl
    | inr f ↦ rw (e, f) refl
  ]
  | inr (inr (inr (inr e))) ↦ rw e refl
]

pub submit_end-handles :
    (cb : CommandBuffer) (h : ControlList)
    → submit_end (with_handles cb h) ≡ with_handles (submit_end cb) h
unfolding submit_end
submit_end-handles cb h = elim (Bool-cases (is_pending cb.state)) [
  | inl t ↦ rw t refl
  | inr f ↦ rw f refl
]

-- A submission of the command buffer alone
submit_alone :
    (cb : CommandBuffer) (h : ControlList)
    → submit_end (with_handles (submit_begin cb) h)
      ≡ with_handles (record cb { state = submitted cb.state (is_one_time cb.usage_flags) }) h
submit_alone cb h =
    submit_end-handles (submit_begin cb) h
    ∙ ap (λ (c : CommandBuffer). with_handles c h) (submit_one cb)

never_after : (s : State) (one_time : Bool) → is_pending (submitted s one_time) ≡ false
never_after State.initial one_time = refl
never_after State.recording one_time = refl
never_after State.executable true = refl
never_after State.executable false = refl
never_after State.pending true = refl
never_after State.pending false = refl
never_after State.invalid one_time = refl

apply_not_pending :
    (reset_able : Bool) (c : Call) (cb : CommandBuffer)
    → is_pending cb.state ≡ false
    → is_pending (apply reset_able c cb).state ≡ false
unfolding begin end_recording reset
apply_not_pending reset_able (Call.begin_call flags) cb h = refl
apply_not_pending reset_able Call.end_call cb h = refl
apply_not_pending reset_able Call.reset_call cb h =
    elim (Bool-cases (is_recording cb.state || is_executable cb.state)) [
      | inl t ↦ rw t refl
      | inr f ↦ rw f refl
    ]
apply_not_pending reset_able (Call.submit_call handles) cb h =
    rw (submit_alone cb handles) (never_after cb.state (is_one_time cb.usage_flags))

-- Whatever sequence of calls is made on a command buffer that is not pending, it is not pending
-- afterwards, so the asserts of `vkResetCommandBuffer` and `vkResetCommandPool` hold.
pub never_pending :
    (reset_able : Bool) (cs : List Call) (cb : CommandBuffer)
    → is_pending cb.state ≡ false
    → is_pending (run reset_able cs cb).state ≡ false
never_pending reset_able [] cb h = h
never_pending reset_able (c ∷ cs) cb h =
    never_pending reset_able cs (apply reset_able c cb) (apply_not_pending reset_able c cb h)

-- The recorded commands of a list
abbrev pub IsEmpty : ControlList → Type 0
IsEmpty cl = (cl.next_free_byte_offset ≡ cl.offset) × (cl.curr_marker_offset ≡ u32_max)

abbrev pub AllEmpty : Lists → Type 0
AllEmpty ls =
    IsEmpty ls.bin_cl
    × IsEmpty ls.handles_cl
    × IsEmpty ls.shader_rec_cl
    × IsEmpty ls.uniforms_cl
    × IsEmpty ls.uniform_reloc_cl
    × IsEmpty ls.gem_reloc_cl
    × IsEmpty ls.shader_rec_reloc_cl

emptied : (ls : Lists) → AllEmpty (empty_lists ls)
unfolding empty_lists empty_list
emptied ls = (
  (refl, refl),
  (refl, refl),
  (refl, refl),
  (refl, refl),
  (refl, refl),
  (refl, refl),
  (refl, refl),
)

-- one submission for each list of handles that it leaves
abbrev pub submits : List ControlList → List Call
submits [] = []
submits (h ∷ hs) = Call.submit_call h ∷ submits hs

-- the list of handles after the last submission
abbrev pub last_handles : ControlList → List ControlList → ControlList
last_handles h [] = h
last_handles h (k ∷ hs) = last_handles k hs

-- Submissions change nothing but the list of handles and the state, which stays executable, or is invalid
-- after the first where the command buffer is for one time.
submits_lem :
    (reset_able : Bool) (hs : List ControlList) (cb : CommandBuffer)
    → (cb.state ≡ State.executable) ⊎ (cb.state ≡ State.invalid)
    → (s : State) × (run reset_able (submits hs) cb
        ≡ with_handles (record cb { state = s }) (last_handles cb.lists.handles_cl hs))
      × ((s ≡ State.executable) ⊎ (s ≡ State.invalid))
submits_lem reset_able [] cb h = (cb.state, refl, h)
submits_lem reset_able (k ∷ hs) cb h =
    let one_time = is_one_time cb.usage_flags in
    let (s, e, ok) =
      submits_lem reset_able hs (with_handles (record cb { state = submitted cb.state one_time }) k)
        (still cb.state one_time h) in
    (s, ap (run reset_able (submits hs)) (submit_alone cb k) ∙ e, ok)
  where
    still :
        (s : State) (one_time : Bool)
        → (s ≡ State.executable) ⊎ (s ≡ State.invalid)
        → (submitted s one_time ≡ State.executable) ⊎ (submitted s one_time ≡ State.invalid)
    still s true (inl e) = inr (rw e refl)
    still s false (inl e) = inl (rw e refl)
    still s one_time (inr e) = inr (rw e refl)

-- A command buffer that was recorded, ended and submitted any number of times, each of which may leave
-- any list of handles, and is begun again in a pool with the reset flag: it is recording, its lists
-- are empty, each with the blocks that it had, the list of handles with those that the last submission
-- left it, and every dirty flag is set.
pub begin-again :
    (flags : ℕ) (hs : List ControlList) (cb : CommandBuffer)
    → let again = begin true flags (run true (submits hs) (end_recording cb)) in
      (again.state ≡ State.recording)
      × AllEmpty again.lists
      × (again.lists
          ≡ empty_lists (record cb.lists { handles_cl = last_handles cb.lists.handles_cl hs }))
      × (again.dirty ≡ all_dirty)
unfolding begin end_recording reset empty_lists empty_list
begin-again flags hs cb =
    let (s, e, k) = submits_lem true hs (record cb { state = State.executable }) (inl refl) in
    let left : Lists = record cb.lists { handles_cl = last_handles cb.lists.handles_cl hs } in
    elim k [
      | inl at ↦ rw (e, at) (refl, emptied left, refl, refl)
      | inr at ↦ rw (e, at) (refl, emptied left, refl, refl)
    ]
