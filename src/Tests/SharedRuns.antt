-- ===== src/Tests/SharedRuns.antt =====
-- A system call of kernel/task.c and calls of kernel/page.c over one heap, from its start on.
use epos_arm.Base.{[], ◌∷◌}
use epos_arm.Heap.{kfree}
use epos_arm.Vmspace.{init_vmspace}
use epos_arm.Vmspace.Chain.{new_zone}
use epos_arm.Shared.{SharedMachine}
use epos_arm.Tests.ThreadRuns.{threads}
use epos_arm.Tests.ThreadHeaps.{Blocks, take, allocator, heap, booted, two}

abbrev begun : SharedMachine Blocks
begun = record {
  threads = booted.threads;
  space = init_vmspace 0x9000 0xC080_0000;
  heap = booted.heap;
}

-- A second thread, then a zone of two pages of the user's, which is then given back.
abbrev second : SharedMachine Blocks
second = record begun { threads = two.threads; heap = two.heap }

abbrev grown : SharedMachine Blocks
grown = record second {
  space = record (init_vmspace 0x9000 0xC080_0000) {
    uvmzone = new_zone 0x8002 0x40_0000 0x2000 7 ∷ [];
  };
  heap = (take 16 two.heap).0;
}

abbrev given_back : SharedMachine Blocks
given_back = record second { heap = kfree allocator 0x8002 grown.heap }
