-- ===== src/Service/Names.antt =====
-- The array `name_` of skynet-src/service/service_manager.cpp: names of services with their handles,
-- sorted by name. An entry that `new` makes is blank. The variable `end` of the two binary searches,
-- which may be -1, is written as `stop`, which is `end + 1`.
pub mod Sorted
pub mod Find
pub mod Room
pub mod Insert
pub mod Forget
use skynet.Service.Name.{Name, compare_names}
use skynet.Base.{
  ℕ, zero, suc, ◌+◌, ◌-◌, ◌*◌, ◌/◌, Option, none, some, List, [], ◌∷◌, get_or, set, replicate, ltb,
  ◌==◌, ◌||◌, leb, if◌then◌else◌,
}
use Prim.Native.Nat.{Ordering}

abbrev pub max_slot_size : ℕ
max_slot_size = 0x40000000

-- `handle_name`
pub record HandleName : Type 0 where
  pub svc_name : Name
  pub svc_handle : ℕ

abbrev pub blank : HandleName
blank = record { svc_name = []; svc_handle = 0 }

pub record Names : Type 0 where
  pub name_cap : ℕ
  pub name_count : ℕ
  pub name : List HandleName

-- `service_manager::init`, as far as it concerns the names.
unfoldable pub init : Names
init = record { name_cap = 2; name_count = 0; name = replicate 2 blank }

abbrev pub entry : List HandleName → ℕ → HandleName
entry a i = get_or a i blank

-- Where a binary search ends: at an entry of that name, or with the `begin` at which one would stand.
pub data Search : Type 0 where
  found : ℕ → Search
  missing : ℕ → Search

-- The range of the next round: `begin = mid + 1` or `end = mid - 1`.
unfoldable pub narrow : Ordering → ℕ → ℕ → ℕ → ℕ × ℕ
narrow Ordering.lt begin mid stop = (mid + 1, stop)
narrow Ordering.eq begin mid stop = (begin, mid)
narrow Ordering.gt begin mid stop = (begin, mid)

unfoldable pub stop_or : Ordering → ℕ → Option Search → Option Search
stop_or Ordering.lt mid rest = rest
stop_or Ordering.eq mid rest = some (found mid)
stop_or Ordering.gt mid rest = rest

-- The loop of `find_by_name` and of `_insert_name`; `none` when the fuel runs out.
unfoldable pub search : ℕ → List HandleName → Name → ℕ → ℕ → Option Search
search zero a svc_name begin stop = none
search (suc fuel) a svc_name begin stop =
    let mid = (begin + stop - 1) / 2 in
    let c = compare_names ((entry a mid).svc_name) svc_name in
    let (begin', stop') = narrow c begin mid stop in
    let rest = search fuel a svc_name begin' stop' in
    if ltb begin stop then stop_or c mid rest else some (missing begin)

-- As many rounds as there are entries, and one to see that the range is empty.
unfoldable pub search_all : Names → Name → Option Search
search_all ns svc_name = search (suc ns.name_count) ns.name svc_name 0 ns.name_count

-- `find_by_name`
unfoldable pub handle_of : List HandleName → Option Search → Option ℕ
handle_of a none = none
handle_of a (some (found mid)) = some ((entry a mid).svc_handle)
handle_of a (some (missing begin)) = some 0

unfoldable pub find_by_name : Names → Name → Option ℕ
find_by_name ns svc_name = handle_of ns.name (search_all ns svc_name)

-- `for (; rounds > 0; rounds--, i++) n[i + d] = name_[i];`
unfoldable pub copy_range : ℕ → ℕ → ℕ → List HandleName → List HandleName → List HandleName
copy_range zero d i name n = n
copy_range (suc rounds) d i name n = copy_range rounds d (i + 1) name (set n (i + d) (entry name i))

-- `for (int i = before + rounds; i > before; i--) name_[i] = name_[i - 1];`
unfoldable pub shift_up : ℕ → ℕ → List HandleName → List HandleName
shift_up zero before name = name
shift_up (suc rounds) before name =
    shift_up rounds before (set name (before + rounds + 1) (entry name (before + rounds)))

-- The array with a gap at `before`, and its capacity.
unfoldable pub make_room : Names → ℕ → Option (ℕ × List HandleName)
make_room ns before =
    let n = replicate (ns.name_cap * 2) blank in
    let n₁ = copy_range before 0 0 ns.name n in
    let n₂ = copy_range (ns.name_count - before) 1 before ns.name n₁ in
    if leb ns.name_cap ns.name_count
    then (if leb (ns.name_cap * 2) max_slot_size then some (ns.name_cap * 2, n₂) else none)
    else some (ns.name_cap, shift_up (ns.name_count - before) before ns.name)

-- The end of `_insert_name_before`, in the array with the gap.
unfoldable pub place_name :
    Names → Name → ℕ → ℕ → Option (ℕ × List HandleName) → Option (Option Name × Names)
place_name ns svc_name svc_handle before none = none
place_name ns svc_name svc_handle before (some (cap, name)) = some (
  some svc_name,
  record {
    name_cap = cap;
    name_count = ns.name_count + 1;
    name = set name before (record { svc_name = svc_name; svc_handle = svc_handle });
  },
)

-- `_insert_name_before`: the name that it returns, and the names. `none` when the `assert` fails.
unfoldable pub insert_name_before : Names → Name → ℕ → ℕ → Option (Option Name × Names)
insert_name_before ns svc_name svc_handle before =
    place_name ns svc_name svc_handle before (make_room ns before)

unfoldable pub insert_unless_found : Names → Name → ℕ → Option Search → Option (Option Name × Names)
insert_unless_found ns svc_name svc_handle none = none
insert_unless_found ns svc_name svc_handle (some (found mid)) = some (none, ns)
insert_unless_found ns svc_name svc_handle (some (missing begin)) =
    insert_name_before ns svc_name svc_handle begin

-- `_insert_name`, which `set_handle_by_name` calls under the lock.
unfoldable pub insert_name : Names → Name → ℕ → Option (Option Name × Names)
insert_name ns svc_name svc_handle =
    insert_unless_found ns svc_name svc_handle (search_all ns svc_name)

-- The loop of `unregister_service` over the names: the entries of the handle are left out.
unfoldable pub drop_names : ℕ → ℕ → ℕ → ℕ → List HandleName → ℕ × List HandleName
drop_names zero svc_handle i j name = (j, name)
drop_names (suc rounds) svc_handle i j name =
    let same = (entry name i).svc_handle == svc_handle in
    let name' = if same || i == j then name else set name j (entry name i) in
    let j' = if same then j else j + 1 in drop_names rounds svc_handle (i + 1) j' name'

unfoldable pub forget_handle : Names → ℕ → Names
forget_handle ns svc_handle =
    let (j, name) = drop_names ns.name_count svc_handle 0 0 ns.name in
    record ns { name_count = j; name = name }
