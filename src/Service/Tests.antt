-- ===== src/Service/Tests.antt =====
-- Concrete instances of the theorems on the names of services
-- (skynet-src/service/service_manager.cpp).
use skynet.Base.{◌≡◌, refl, Option, some, [], ◌∷◌, arith}
use skynet.Service.Name.{Name, compare_names}
use skynet.Service.Names.{
  Names, find_by_name, insert_name, forget_handle, search_all, search, narrow, stop_or, handle_of,
}
use skynet.Service.Names.Sorted.{IsValid, IsSorted, handle_named}
use skynet.Service.Names.Find.{handle_or_zero, find_by_name_lem}
use skynet.Service.Names.Insert.{Inserted, insert_name_lem}
use skynet.Service.Names.Forget.{without, forget_handle_lem}

-- "db" and "gate", in an array that is full.
abbrev two_names : Names
two_names = record {
  name_cap = 2;
  name_count = 2;
  name =
      record { svc_name = 100 ∷ 98 ∷ []; svc_handle = 9 }
      ∷ record { svc_name = 103 ∷ 97 ∷ 116 ∷ 101 ∷ []; svc_handle = 7 }
      ∷ [];
}

two_names-IsSorted : IsSorted (two_names.name) 2
unfolding compare_names
two_names-IsSorted i j lt top =
    let first : i ≡ 0 = omega arith in let second : j ≡ 1 = omega arith in rw (first, second) refl

two_names-IsValid : IsValid two_names
two_names-IsValid = record {
  cap_pos = omega arith;
  fits = omega arith;
  cells = refl;
  sorted = two_names-IsSorted;
}

find_gate : find_by_name two_names (103 ∷ 97 ∷ 116 ∷ 101 ∷ []) ≡ some 7
unfolding find_by_name search_all search narrow stop_or handle_of compare_names
find_gate = refl

find_by_name_lem_example :
    find_by_name two_names (103 ∷ 97 ∷ 116 ∷ 101 ∷ [])
    ≡ some (handle_or_zero (handle_named two_names (103 ∷ 97 ∷ 116 ∷ 101 ∷ [])))
find_by_name_lem_example = find_by_name_lem two_names (103 ∷ 97 ∷ 116 ∷ 101 ∷ []) two_names-IsValid

-- "e" goes between the two.
insert_name_lem_example :
    (ret : Option Name) × (ns' : Names) × (insert_name two_names (101 ∷ []) 4 ≡ some (ret, ns'))
    × Inserted two_names (101 ∷ []) 4 ret ns'
insert_name_lem_example = insert_name_lem two_names (101 ∷ []) 4 two_names-IsValid (omega arith)

forget_handle_lem_example :
    IsValid (forget_handle two_names 9)
    × ((x : Name)
        → handle_named (forget_handle two_names 9) x ≡ without 9 (handle_named two_names x))
forget_handle_lem_example = forget_handle_lem two_names 9 two_names-IsValid
