-- ===== src/Tests/Thread.antt =====
-- thread.hpp: a stack of 1024 bytes at the address 4096, of which 256 are in use and 512 have been.
use threadx_cpp.Prelude.{◌+◌, ◌*◌, ◌≤◌, ◌<◌, ◌≡◌, ◌↔◌, refl, arith}
use threadx_cpp.Thread.Native.{NativeStack}
use threadx_cpp.Thread.Stack.{stack_info, IsStack, stack_info-bounds}
use threadx_cpp.Tests.Platforms.{target}

abbrev stack : NativeStack
stack = record { stack_size = 1024; stack_ptr = 4864; stack_end = 5119; stack_highest_ptr = 4608 }

stack-IsStack : IsStack target 4096 stack
stack-IsStack = record {
  size_pos = omega arith;
  last_byte = refl;
  fits = omega arith;
  hundredth = omega arith;
  above_start = omega arith;
  within = omega arith;
  noted_above_start = omega arith;
  noted_within = omega arith;
}

stack_info_runs :
    stack_info target stack
    ≡ record { size = 1024; used = 256; max_used = 512; max_used_percent = 50 }
unfolding stack_info
stack_info_runs = refl

stack_info-bounds_example :
    let info = stack_info target stack in
    (info.used ≤ info.size)
    × (info.max_used ≤ info.size)
    × ((info.used ≤ info.max_used) ↔ (4608 ≤ 4864))
    × (info.max_used_percent ≤ 100)
    × (info.max_used_percent * info.size ≤ info.max_used * 100)
    × (info.max_used * 100 < (info.max_used_percent + 1) * info.size)
stack_info-bounds_example = stack_info-bounds target 4096 stack stack-IsStack
