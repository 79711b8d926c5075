-- ===== src/Blobs/Sizes.antt =====
-- pkg/blobs/utils.go.
use open_cidn.Base.{ℕ, zero, suc, ◌-◌, ◌/◌, ◌^◌, ◌%◌, ◌==◌, leb, if◌then◌else◌, ℤ, pos, negsuc}

-- `uint64(size)` of an int64.
abbrev pub as_uint64 : ℤ → ℕ
as_uint64 (pos n) = n % 2 ^ 64
as_uint64 (negsuc n) = (2 ^ 64 - 1) - n

-- bits.Len64; 64 halvings make every uint64 zero.
unfoldable pub len_bits : ℕ → ℕ → ℕ
len_bits zero n = 0
len_bits (suc k) n = let rest = len_bits k (n / 2) in if n == 0 then 0 else suc rest

abbrev pub len_64 : ℕ → ℕ
len_64 n = len_bits 64 n

-- The `switch`, as a group and a weight.
unfoldable pub class_of : ℕ → ℕ × ℕ
class_of l =
    if leb l 11
    then (0, 100)
    else if leb l 21
    then (0, 50)
    else if l == 22
    then (0, 10)
    else if l == 23
    then (0, 2)
    else if l == 24
    then (0, 1)
    else if l == 25
    then (1, 3)
    else if l == 26
    then (1, 2)
    else if l == 27
    then (1, 1)
    else if l == 28
    then (2, 4)
    else if l == 29
    then (2, 3)
    else if l == 30
    then (2, 2)
    else if l == 31
    then (2, 1)
    else if l == 32
    then (3, 3)
    else if l == 33
    then (3, 2)
    else (3, 1)

unfoldable pub size_to_group_and_weight : ℤ → ℕ × ℕ
unfolding class_of
size_to_group_and_weight size = class_of (len_64 (as_uint64 size))
