-- ===== src/Cpu/Stubs.antt =====
-- Platform/ARC/Library/CpuLib/CpuLib.c, Platform/ARC/Library/CpuLib/CpuException.c and
-- Platform/ARC/Library/CpuLib/Arc2SetJump.S: functions that are not supported, over the state of the
-- machine.
use edk2_arc.Base.{ℕ, Option}
use edk2_arc.Edk2.{Status}

module _ {S : Type 0} where
  -- The entry point, the two contexts and the new stack; the call returns to the caller.
  unfoldable pub internal_switch_stack : ℕ → Option ℕ → Option ℕ → ℕ → S → S
  internal_switch_stack entry_point context1 context2 new_stack s = s

  unfoldable pub initialize_cpu_exception_handlers : Option ℕ → S → Status × S
  initialize_cpu_exception_handlers vector_info s = (Status.unsupported, s)

  -- The size behind `BufferSize` is left as it is.
  unfoldable pub initialize_separate_exception_stacks : ℕ → ℕ → S → Status × ℕ × S
  initialize_separate_exception_stacks buffer buffer_size s = (Status.unsupported, buffer_size, s)

  -- Both return at once. The register that has the argument is that of the result too.
  unfoldable pub set_jump : ℕ → S → ℕ × S
  set_jump jump_buffer s = (jump_buffer, s)

  unfoldable pub internal_long_jump : ℕ → ℕ → S → S
  internal_long_jump jump_buffer value s = s
