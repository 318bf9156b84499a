-- ===== src/Capture/Cpu/Chosen.antt =====
-- socket_server/capture.py, lines 832 to 901 and 976 to 1034: which processor is chosen, and what is bound
-- to it.
use socket_server.Prelude.{
  ℕ, ◌+◌, ◌-◌, ◌≤◌, ◌<◌, ◌≡◌, true, false, ◌&&◌, ◌||◌, Option, none, some, List, [], ◌∷◌,
  if◌then◌else◌,
}
use socket_server.Prelude.Bytes.{Text, eqb}
use socket_server.Prelude.Dict.{lookup}
use socket_server.Capture.Cpu.{
  Bindings, CpuLine, is_in, loaded_cpus, or_eight, or_else, get_irqs_via_sys, Processors, Interface,
}

-- A processor that is neither allocated nor loaded.
abbrev IsIdle : List ℕ → List (Option CpuLine) → ℕ → Type 0
IsIdle allocated lines c = (is_in c allocated ≡ false) × (is_in c (loaded_cpus lines) ≡ false)

-- The first idle processor but 0; or the last one, when none of them is idle.
pub data Chosen (count : ℕ) (allocated : List ℕ) (lines : List (Option CpuLine)) (c : ℕ)
    : Type 0 where
  first :
      1 ≤ c
      → c < count
      → IsIdle allocated lines c
      → ((d : ℕ) → 1 ≤ d → d < c → ¬ IsIdle allocated lines d)
      → Chosen count allocated lines c
  last :
      c ≡ count - 1
      → ((d : ℕ) → 1 ≤ d → d < count → ¬ IsIdle allocated lines d)
      → Chosen count allocated lines c

-- What the loop finds among the `n` processors from `cpu` on.
data Found (n cpu : ℕ) (taken : List ℕ) (r : Option ℕ) : Type 0 where
  at_last :
      (c : ℕ)
      → r ≡ some c
      → cpu ≤ c
      → c < cpu + n
      → is_in c taken ≡ false
      → ((d : ℕ) → cpu ≤ d → d < c → is_in d taken ≡ true)
      → Found n cpu taken r
  nowhere :
      r ≡ none → ((d : ℕ) → cpu ≤ d → d < cpu + n → is_in d taken ≡ true) → Found n cpu taken r

-- The interrupts that are found, by the first way that finds any.
abbrev irqs_of : ℕ → Interface → List ℕ
irqs_of count i = or_else (get_irqs_via_sys count i.msi_irqs i.named_irqs) i.proc_irqs

-- How `SingleQueueRxThread` leaves the bindings and the machine.
pub data Binds (eth : Text) (count : ℕ) (i : Interface) (b : Bindings) (m : Processors)
    (r : Option (Bindings × Processors)) : Type 0 where
  reused :
      (cpu : ℕ)
      → lookup eth b.nic_cpu_binding ≡ some cpu
      → r ≡ some (b, m)
      → Binds eth count i b m r
  missing :
      lookup eth b.nic_cpu_binding ≡ none → i.is_there ≡ false → r ≡ none → Binds eth count i b m r
  no_irqs :
      lookup eth b.nic_cpu_binding ≡ none
      → i.is_there ≡ true
      → irqs_of count i ≡ []
      → r ≡ some (b, m)
      → Binds eth count i b m r
  bound :
      (cpu : ℕ) (b' : Bindings) (m' : Processors)
      → lookup eth b.nic_cpu_binding ≡ none
      → i.is_there ≡ true
      → ¬ (irqs_of count i ≡ [])
      → r ≡ some (b', m')
      → Chosen (or_eight m.cpu_count) b.allocated_cpus m.stat cpu
      → ((e : Text)
          → lookup e b'.nic_cpu_binding
            ≡ (if eqb e eth then some cpu else lookup e b.nic_cpu_binding))
      → b'.allocated_cpus ≡ cpu ∷ b.allocated_cpus
      → ((irq : ℕ)
          → m'.affinity irq ≡ (
              if is_in irq (irqs_of count i) && m.irq_exists irq then some cpu else m.affinity irq))
      → ((e : Text) → m'.rps_off e ≡ ((eqb e eth && m.rps_writable e) || m.rps_off e))
      → ((e : Text) → m'.rfs_off e ≡ ((eqb e eth && m.rfs_writable e) || m.rfs_off e))
      → Binds eth count i b m r
