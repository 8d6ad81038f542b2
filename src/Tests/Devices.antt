-- ===== src/Tests/Devices.antt =====
-- rv32i/src/main.cpp: the theorems on the devices at concrete inputs.
use xor_os.Base.{◌+◌, ◌-◌, ◌*◌, ◌^◌, ◌≡◌, arith, [], ◌∷◌}
use xor_os.Outcome.{ok}
use xor_os.Memory
use xor_os.Memory.{MemoryModel}
use xor_os.Simulator.{Devices}
use xor_os.Simulator.Mmio.{compared, mtimecmp_lem}

-- A machine that has sent the letter `X`, at time 5, with no deadline.
abbrev idle : MemoryModel Devices
idle = Memory.init 64 (record { mtime = 5; mtimecmp = 2 ^ 64 - 1; output = 88 ∷ [] })

mtimecmp_lem_example :
    let m' = compared idle 1000 1 in
    (m'.device.mtimecmp ≡ 1 * 2 ^ 32 + 1000)
    × (Memory.read_word m' 0xF00C ≡ ok 1000)
    × (Memory.read_word m' 0xF010 ≡ ok 1)
    × (m'.device.mtime ≡ idle.device.mtime)
    × (m'.device.output ≡ idle.device.output)
    × (m'.bytes ≡ idle.bytes)
mtimecmp_lem_example =
    mtimecmp_lem idle 1000 1 (unfold Memory.init in omega arith) (omega arith) (omega arith)
