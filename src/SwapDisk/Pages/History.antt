-- ===== src/SwapDisk/Pages/History.antt =====
-- Sequences of calls of kernel/swap_disk.c keep a page that was swapped out.
use operating_systems_2_assi.Prelude.{
  ℕ, ◌<◌, ◌≡◌, refl, arith, Bytes, ltb, if◌then◌else◌, List, [], ◌∷◌, ok, All,
}
use operating_systems_2_assi.SwapDisk.State.{SwapDisk}
use operating_systems_2_assi.SwapDisk.Pages.{swap_in_page}
use operating_systems_2_assi.SwapDisk.Pages.Out.{swap_out_page-PageOut}
use operating_systems_2_assi.SwapDisk.Pages.In.{Holds, swap_in_page-Holds, PageOut-Holds}
use operating_systems_2_assi.SwapDisk.Pages.Calls.{
  Call, page_out, step, run, IsSound, shared_slots, Spares,
}
use operating_systems_2_assi.SwapDisk.Pages.Isolation.{SlotFits-shared, step-Spared}

-- Any sequence of calls on slots below 512, in any modes and policies, that neither writes nor
-- frees a slot succeeds from a sound state, keeps the state sound, and keeps the page that is
-- held for the slot.
pub run-Holds :
    (cs : List Call) (k me : ℕ) (page : Bytes) (s : SwapDisk)
    → k < shared_slots
    → All (Spares k) cs
    → IsSound me s
    → Holds page k s
    → (t : SwapDisk) × (run cs s ≡ ok t) × IsSound me t × Holds page k t
unfolding run
run-Holds [] k me page s small h v p = (s, refl, v, p)
run-Holds (c ∷ cs) k me page s small h v p =
    let (t, e, q) = step-Spared k me page small s v p c h.0 in
    let (u, f, w, r) = run-Holds cs k me page t small h.1 q.sound q.holds in (u, rw e f, w, r)

-- A page that is swapped out to a slot below 512 comes back unchanged, whatever calls on other
-- slots below 512, reads, and changes of RAID mode or disk policy are made in between, from a
-- sound state in which every call is made with an idle queue; all the calls succeed.
pub swap_isolated :
    (page dst : Bytes) (k me : ℕ) (cs : List Call) (s : SwapDisk)
    → k < shared_slots
    → All (Spares k) cs
    → IsSound me s
    → (t : SwapDisk) × (u : SwapDisk) × (out : Bytes) × (run (page_out page k ∷ cs) s ≡ ok t)
      × (swap_in_page dst k t ≡ ok (out, u))
      × ((q : ℕ) → out q ≡ (if ltb q 4096 then page q else dst q))
unfolding run step
swap_isolated page dst k me cs s small h v =
    let (s', e, o) =
      swap_out_page-PageOut page k me s v.mode (omega arith)
        (SlotFits-shared s.raid_mode k v.mode small) v.idle in
    let held =
      PageOut-Holds page k me s s' v.mode (omega arith) (SlotFits-shared s.raid_mode k v.mode small)
        o in
    let (t, f, w, r) =
      run-Holds cs k me page s' small h
        (record {
          idle = o.still_idle;
          mode = rw o.same_mode v.mode;
          modes = rw o.recorded (λ j. ground (arith, v.modes j, v.mode));
        })
        held in
    let (out, u, g, x, y) = swap_in_page-Holds page dst k me t r w.idle in (t, u, out, rw e f, g, x)
