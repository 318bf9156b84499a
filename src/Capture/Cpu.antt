-- ===== src/Capture/Cpu.antt =====
-- socket_server/capture.py, lines 17 to 19 and 749 to 1034: the interface whose receive queues are
-- reduced to one, and the processor that its interrupts are bound to. The lists that the code reads from
-- /proc and /sys are inputs.
pub mod Chosen
use socket_server.Prelude.{
  ℕ, zero, suc, ◌+◌, ◌-◌, ◌*◌, max, Bool, false, ◌&&◌, ◌||◌, Option, none, some, List, [], ◌∷◌,
  ◌++◌, ltb, leb, ◌==◌, if◌then◌else◌, get_or, take,
}
use socket_server.Prelude.Bytes.{Text, eqb}
use socket_server.Prelude.Dict.{Dict, lookup, insert}

-- The module's variables.
pub record Bindings : Type 0 where
  pub nic_cpu_binding : Dict ℕ
  pub allocated_cpus : List ℕ

-- A line `cpuN` of /proc/stat: its number and its counters, four at least.
pub record CpuLine : Type 0 where
  pub cpu_id : ℕ
  pub user : ℕ
  pub nice : ℕ
  pub system : ℕ
  pub idle : ℕ
  pub more : List ℕ

abbrev pub total : CpuLine → ℕ
total c =
    c.user + c.nice + c.system + c.idle + get_or c.more 0 0 + get_or c.more 1 0 + get_or c.more 2 0

-- `(total - idle) / total >= 0.99`, in whole numbers.
is_loaded : CpuLine → Bool
is_loaded c = ltb 0 (total c) && leb (99 * total c) (100 * (total c - c.idle))

unfoldable pub is_in : ℕ → List ℕ → Bool
is_in n [] = false
is_in n (m ∷ ms) = (n == m) || is_in n ms

-- The processors that are busy by /proc/stat; a line that cannot be read (`none`) ends the reading.
pub loaded_cpus : List (Option CpuLine) → List ℕ
loaded_cpus [] = []
loaded_cpus (none ∷ lines) = []
loaded_cpus (some c ∷ lines) =
    let rest = loaded_cpus lines in if is_loaded c then c.cpu_id ∷ rest else rest

-- `for cpu in range(…)`: the first of `n` processors from `cpu` on that is not busy.
pub first_idle : ℕ → ℕ → List ℕ → Option ℕ
first_idle zero cpu busy_cpus = none
first_idle (suc n) cpu busy_cpus =
    let rest = first_idle n (cpu + 1) busy_cpus in if is_in cpu busy_cpus then rest else some cpu

-- `os.cpu_count() or 8`
abbrev pub or_eight : Option ℕ → ℕ
or_eight none = 8
or_eight (some n) = if n == 0 then 8 else n

abbrev pub busy : List ℕ → List (Option CpuLine) → List ℕ
busy allocated lines = 0 ∷ (allocated ++ loaded_cpus lines)

-- `_pick_target_cpu`
pub pick_target_cpu : Option ℕ → List ℕ → List (Option CpuLine) → ℕ
pick_target_cpu cpu_count allocated lines =
    elim (first_idle (or_eight cpu_count - 1) 1 (busy allocated lines)) [
      | some cpu ↦ cpu
      | none ↦ or_eight cpu_count - 1
    ]

-- `_get_irqs_via_sys`: the interrupts of the directory msi_irqs (none without it), sorted; else those
-- of the lines of /proc/interrupts that name the interface or mlx5 (none if it cannot be read).
insert_irq : ℕ → List ℕ → List ℕ
insert_irq n [] = n ∷ []
insert_irq n (m ∷ ms) = if leb n m then n ∷ m ∷ ms else m ∷ insert_irq n ms

sort_irqs : List ℕ → List ℕ
sort_irqs [] = []
sort_irqs (n ∷ ns) = insert_irq n (sort_irqs ns)

abbrev pub or_else : List ℕ → List ℕ → List ℕ
or_else [] other = other
or_else (n ∷ ns) other = n ∷ ns

pub get_irqs_via_sys : ℕ → List ℕ → List ℕ → List ℕ
get_irqs_via_sys count msi_irqs named =
    or_else (take (max (count * 2) 4) (sort_irqs msi_irqs)) (take count named)

-- What is set: the affinity of an interrupt, by its number, and RPS and RFS by the interface. A file that is
-- not there or cannot be written is left out of `irq_exists`, `rps_writable` and `rfs_writable`.
pub record Processors : Type 0 where
  pub cpu_count : Option ℕ
  pub stat : List (Option CpuLine)
  pub irq_exists : ℕ → Bool
  pub affinity : ℕ → Option ℕ
  pub rps_writable : Text → Bool
  pub rfs_writable : Text → Bool
  pub rps_off : Text → Bool
  pub rfs_off : Text → Bool

-- One interrupt of the loop; a path that is not there is passed over.
abbrev pub bind_irq : ℕ → ℕ → Processors → Processors
bind_irq target irq m =
    if m.irq_exists irq
    then record m { affinity = λ i. if i == irq then some target else m.affinity i }
    else m

pub bind_irqs : ℕ → List ℕ → Processors → Processors
bind_irqs target [] m = m
bind_irqs target (irq ∷ irqs) m = bind_irqs target irqs (bind_irq target irq m)

pub disable_rps_rfs : Text → Processors → Processors
disable_rps_rfs eth m = record m {
  rps_off = λ e. (eqb e eth && m.rps_writable e) || m.rps_off e;
  rfs_off = λ e. (eqb e eth && m.rfs_writable e) || m.rfs_off e;
}

abbrev pub record_binding : Text → ℕ → Bindings → Bindings
record_binding eth target b = record {
  nic_cpu_binding = insert eth target b.nic_cpu_binding;
  allocated_cpus = target ∷ b.allocated_cpus;
}

-- `_bind_single_queue_cpu` on the interrupts that were found.
pub bind_found : Text → List ℕ → Bindings → Processors → Bindings × Processors
bind_found eth [] b m = (b, m)
bind_found eth (irq ∷ irqs) b m =
    let target = pick_target_cpu m.cpu_count b.allocated_cpus m.stat in
    (record_binding eth target b, disable_rps_rfs eth (bind_irqs target (irq ∷ irqs) m))

-- What the system shows of an interface.
pub record Interface : Type 0 where
  pub is_there : Bool
  pub msi_irqs : List ℕ
  pub named_irqs : List ℕ
  pub proc_irqs : List ℕ

-- `_bind_single_queue_cpu`
pub bind_single_queue_cpu : Text → ℕ → Interface → Bindings → Processors → Bindings × Processors
bind_single_queue_cpu eth count i b m =
    bind_found eth (or_else (get_irqs_via_sys count i.msi_irqs i.named_irqs) i.proc_irqs) b m

-- `SingleQueueRxThread(eth, count)`: an interface that is bound is left alone, one that is not there
-- raises; `ethtool` has no other effect here than the interface that it leaves.
pub single_queue_rx_thread :
    Text → ℕ → Interface → Bindings → Processors → Option (Bindings × Processors)
single_queue_rx_thread eth count i b m = elim (lookup eth b.nic_cpu_binding) [
  | some cpu ↦ some (b, m)
  | none ↦ if i.is_there then some (bind_single_queue_cpu eth count i b m) else none
]
