-- ===== src/Buffer.antt =====
-- The byte buffer of src/include/cppev/buffer.h.
-- `cap`, `start` and `offset` are the int fields cap_, start_ and offset_, and `store` is the heap
-- array; the null pointer that a move leaves is the empty array. A byte is a number.
-- `none` stands for what has no defined result: an int that overflows while the capacity doubles,
-- an index that would become negative, and an exception out of a noexcept function.
-- A read outside the array gives 0 here and a write outside it changes nothing.
pub mod Arrays
pub mod Bounds
pub mod Contents
pub mod Consume
pub mod Fifo
mod Tests
use cppev.Prelude.{
  ℕ, zero, suc, ◌+◌, ◌-◌, ◌*◌, ◌^◌, ◌≡◌, Bool, true, false, List, [], ◌∷◌, Option, none, some, ltb,
  leb, ◌==◌, if◌then◌else◌, ◌>>=◌, length, get_or, replicate,
}
use cppev.Prelude.Int.{ℤ, pos, negsuc, sub_ℕ, ◌+ℤ◌}
use Arrays.{slice, copy_range, shift_down, fill_zero, put_bytes}

pub record Buffer : Type 0 where
  pub cap : ℕ
  pub start : ℕ
  pub offset : ℕ
  pub store : List ℕ

-- The first number that an int cannot hold.
abbrev pub int_limit : ℕ
int_limit = 2 ^ 31

-- buffer(int cap)
unfoldable pub create : ℕ → Option Buffer
create cap =
    if ltb cap 1
    then none
    else some (record { cap = cap; start = 0; offset = 0; store = replicate cap 0 })

-- while (cap_ < cap) cap_ *= 2; the first argument is fuel
pub grow : ℕ → ℕ → ℕ → Option ℕ
grow zero want cap = none
grow (suc fuel) want cap = elim (ltb cap want) [
  | true ↦ elim (ltb (cap * 2) int_limit) [ true ↦ grow fuel want (cap * 2) | false ↦ none ]
  | false ↦ some cap
]

-- The capacity from which the doubling starts.
abbrev pub base_cap : ℕ → ℕ
base_cap cap = if cap == 0 then 1 else cap

unfoldable pub resize : Buffer → ℕ → Option Buffer
unfolding grow copy_range
resize b want = if leb want b.cap then some b else do
  c ← grow want want (base_cap b.cap)
  some (record b {
    cap = c;
    store = copy_range (b.offset - b.start) b.start b.store (replicate c 0);
  })

unfoldable pub tiny : Buffer → Buffer
unfolding shift_down fill_zero
tiny b =
    let len = b.offset - b.start in
    if b.start == 0 then b else record b {
      start = 0;
      offset = len;
      store = fill_zero b.start len (shift_down len 0 b.start b.store);
    }

unfoldable pub clear : Buffer → Buffer
unfolding fill_zero
clear b = record b { start = 0; offset = 0; store = fill_zero b.cap 0 b.store }

unfoldable pub produce : Buffer → List ℕ → Option Buffer
unfolding resize put_bytes
produce b bytes = do
  r ← resize b (b.offset + length bytes)
  some (record r { offset = r.offset + length bytes; store = put_bytes bytes r.offset r.store })

-- size(): an int, negative when more was consumed than produced
abbrev pub size : Buffer → ℤ
size b = sub_ℕ b.offset b.start

-- An argument of -1 stands for the whole size.
abbrev pub amount : Buffer → ℤ → ℤ
amount b (pos n) = pos n
amount b (negsuc zero) = size b
amount b (negsuc (suc n)) = negsuc (suc n)

abbrev move_start : Buffer → ℤ → Option Buffer
unfolding clear
move_start b (pos s) = some (if s == b.offset then clear b else record b { start = s })
move_start b (negsuc n) = none

unfoldable pub consume : Buffer → ℤ → Option Buffer
unfolding clear ◌+ℤ◌
consume b len = move_start b (pos b.start +ℤ amount b len)

-- std::string(buffer_.get() + start_, len): a negative length is an exception in a noexcept function
abbrev read_string : Buffer → ℤ → Option (List ℕ)
unfolding slice
read_string b (pos n) = some (slice n b.start b.store)
read_string b (negsuc n) = none

unfoldable pub get_string : Buffer → ℤ → Bool → Option (List ℕ × Buffer)
unfolding consume slice
get_string b len remove = do
  str ← read_string b (amount b len)
  rest ← if remove then consume b (amount b len) else some b
  some (str, rest)

-- put_string(str)
unfoldable pub put_string : Buffer → List ℕ → Option Buffer
unfolding produce
put_string b str = produce b str

-- operator[]
abbrev pub at : Buffer → ℕ → ℕ
at b i = get_or b.store (b.start + i) 0

-- copy(other): a fresh array of the same capacity
pub copy : Buffer → Buffer
unfolding copy_range
copy other = record other { store = copy_range other.cap 0 other.store (replicate other.cap 0) }

-- The default move: the ints are copied, the array changes hands. The result is (new, moved-from).
abbrev pub move_from : Buffer → Buffer × Buffer
move_from other = (other, record other { store = [] })

-- The bytes between start_ and offset_, which is what the buffer stands for.
unfoldable pub contents : Buffer → List ℕ
unfolding slice
contents b = slice (b.offset - b.start) b.start b.store
