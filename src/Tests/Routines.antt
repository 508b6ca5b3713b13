-- ===== src/Tests/Routines.antt =====
-- The routines on memory.
use shogun_os.Base.{◌+◌, ◌-◌, ◌≡◌, ◌&&◌, leb, ltb, if◌then◌else◌, arith, inl}
use shogun_os.Libc.{memcpy, memcpy_lem}

memcpy_lem_example :
    ((memcpy 0x10 0x12 4 (λ a. a)).0 ≡ 0x10)
    × ((memcpy 0x10 0x12 4 (λ a. a)).1 0x13
        ≡ (if leb 0x10 0x13 && ltb 0x13 (0x10 + 4) then 0x12 + (0x13 - 0x10) else 0x13))
memcpy_lem_example =
    memcpy_lem 0x10 0x12 4 0x13 (λ a. a) (omega arith) (omega arith) (inl (omega arith))
