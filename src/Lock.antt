-- ===== src/Lock.antt =====
-- src/kernel/lock.h: a ticket lock, with the interrupt masking of trap.c (cli_push, cli_pop), on a
-- machine whose processors run.
pub mod Invariant
pub mod Steps
pub mod Leave
pub mod Order
pub mod Fair
mod Tests
use asym.Base.{
  ℕ, ◌+◌, ◌-◌, ◌%◌, ◌^◌, ◌<◌, ◌≡◌, ◌≢◌, Bool, true, false, not, ◌&&◌, Option, none, some, ◌==◌,
  if◌then◌else◌,
}
use asym.Base.Maps.{update}

-- Where a processor stands with the lock: `spinning` holds the local variable `ticket`.
pub data Place : Type 0 where
  outside : Place
  spinning : ℕ → Place
  inside : Place

-- The fields of `cpu_t` that masking uses, and the processor's interrupt flag. `held` counts the other
-- locks that it holds.
pub record Cpu : Type 0 where
  pub cli_amount : ℕ
  pub prev_flags : Bool  -- RFLAGS_INTERRUPT_ENABLE of prevFlags
  pub trap_depth : ℕ
  pub interrupts : Bool
  pub place : Place
  pub held : ℕ

-- after smp_initialized()
unfoldable pub cli_push : Cpu → Cpu
cli_push c = record c {
  prev_flags = if c.cli_amount == 0 then c.interrupts else c.prev_flags;
  interrupts = false;
  cli_amount = c.cli_amount + 1;
}

-- `none` is the stop by LOG_ASSERT.
unfoldable pub cli_pop : Cpu → Option Cpu
cli_pop c =
    if c.cli_amount == 0
    then none
    else some (record c {
      cli_amount = c.cli_amount - 1;
      interrupts =
          if (c.cli_amount - 1 == 0) && c.prev_flags && (c.trap_depth == 0)
          then true
          else c.interrupts;
    })

-- `lock_t`, 32-bit counters, and the processors
pub record System : Type 0 where
  pub next_ticket : ℕ
  pub now_serving : ℕ
  pub cpus : ℕ → Cpu

abbrev pub with_cpu : System → ℕ → Cpu → System
with_cpu s i c = record s { cpus = update s.cpus i c }

abbrev pub lock_init : (ℕ → Cpu) → System
lock_init cpus = record { next_ticket = 0; now_serving = 0; cpus = cpus }

-- lock_acquire up to its loop
unfoldable pub lock_acquire : System → ℕ → System
lock_acquire s i =
    with_cpu (record s { next_ticket = (s.next_ticket + 1) % 2 ^ 32 }) i
      (record (cli_push (s.cpus i)) { place = spinning s.next_ticket })

-- one test of the loop
unfoldable pub lock_test : System → ℕ → ℕ → System
lock_test s i ticket =
    if s.now_serving == ticket then with_cpu s i (record (s.cpus i) { place = inside }) else s

abbrev pub popped : System → ℕ → Option Cpu → Option System
popped s i none = none
popped s i (some c) = some (with_cpu s i c)

unfoldable pub lock_release : System → ℕ → Option System
lock_release s i =
    popped (record s { now_serving = (s.now_serving + 1) % 2 ^ 32 }) i
      (cli_pop (record (s.cpus i) { place = outside }))

-- `n` processors take and leave the lock, and others inside or around it.
pub data Step (n : ℕ) (s : System) : System → Type 0 where
  acquire : (i : ℕ) → i < n → (s.cpus i).place ≡ outside → Step n s (lock_acquire s i)
  test :
      (i ticket : ℕ) → i < n → (s.cpus i).place ≡ spinning ticket → Step n s (lock_test s i ticket)
  release :
      (i : ℕ) {u : System}
      → i < n
      → (s.cpus i).place ≡ inside
      → lock_release s i ≡ some u
      → Step n s u
  push :
      (i : ℕ)
      → i < n
      → ((ticket : ℕ) → (s.cpus i).place ≢ spinning ticket)
      → Step n s (with_cpu s i (record (cli_push (s.cpus i)) { held = (s.cpus i).held + 1 }))
  pop :
      (i : ℕ) {c : Cpu}
      → i < n
      → ((ticket : ℕ) → (s.cpus i).place ≢ spinning ticket)
      → (s.cpus i).held ≢ 0
      → cli_pop (record (s.cpus i) { held = (s.cpus i).held - 1 }) ≡ some c
      → Step n s (with_cpu s i c)

-- a processor before its first lock
pub record Fresh (c : Cpu) : Type 0 where
  pub place : c.place ≡ outside
  pub cli_amount : c.cli_amount ≡ 0
  pub held : c.held ≡ 0

pub data Reach (n : ℕ) : System → Type 0 where
  start : (cpus : ℕ → Cpu) → ((i : ℕ) → Fresh (cpus i)) → Reach n (lock_init cpus)
  later : {s u : System} → Reach n s → Step n s u → Reach n u
