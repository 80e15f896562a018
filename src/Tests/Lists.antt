-- ===== src/Tests/Lists.antt =====
-- The intrusive list on a store with the list of 1, which holds 2 and 3, and with 4 by itself.
use hydrosphere.Common.{◌<◌, false, ◌^◌, ◌≡◌, refl, arith, [], ◌∷◌, some, if◌then◌else◌, ◌==◌}
use hydrosphere.IntrusiveList.{Store, push_back, insert, clear}
use hydrosphere.IntrusiveList.Chain.{direct, through, Ring}
use hydrosphere.IntrusiveList.Laws.{insert-Ring}
use hydrosphere.IntrusiveList.Traversal.{Cleared, clear-Ring}
use hydrosphere.IntrusiveList.Iterators.{
  get_element_pointer, end, iterator_eq, pre_decrement, count,
}
use hydrosphere.IntrusiveList.Iteration.{IsFitting, begin_then, count-length, iteration-Ring}

abbrev two_three : Store
two_three = record {
  prev = λ a. if a == 1 then 3 else (if a == 2 then 1 else (if a == 3 then 2 else a));
  next = λ a. if a == 1 then 2 else (if a == 2 then 3 else (if a == 3 then 1 else a));
}

two_three-Ring : Ring two_three 1 (2 ∷ 3 ∷ [])
two_three-Ring = record {
  chain = through refl refl (through refl refl (direct refl refl));
  distinct = (refl, (refl, (refl, tt)));
}

four-Ring : Ring two_three 4 []
four-Ring = record { chain = direct refl refl; distinct = (refl, tt) }

insert-Ring_example :
    Ring (insert 3 4 two_three).0 1 (2 ∷ 4 ∷ 3 ∷ []) × ((insert 3 4 two_three).1 ≡ 4)
insert-Ring_example = insert-Ring 3 (2 ∷ []) [] [] two_three-Ring four-Ring (λ a i. ground arith)

-- The list of 1 with 2, 3 and 4.
abbrev four_in_list : Store
four_in_list = push_back 1 4 two_three

clear-Ring_example :
    (g : Store) × (clear 3 1 two_three ≡ some g) × Cleared two_three g 1 (2 ∷ 3 ∷ [])
clear-Ring_example = clear-Ring 3 (2 ∷ 3 ∷ []) two_three-Ring (omega arith)

-- The same list where nothing else is constructed. The links are 24 bytes behind their elements.
abbrev two_three_alone : Store
two_three_alone = record {
  prev = λ a. if a == 1 then 3 else (if a == 2 then 1 else (if a == 3 then 2 else 0));
  next = λ a. if a == 1 then 2 else (if a == 2 then 3 else (if a == 3 then 1 else 0));
}

two_three_alone-Ring : Ring two_three_alone 1 (2 ∷ 3 ∷ [])
two_three_alone-Ring = record {
  chain =
      through {a = 1} {x = 2} refl refl
        (through {a = 2} {x = 3} refl refl (direct {a = 3} {b = 1} refl refl));
  distinct = (refl, (refl, (refl, tt)));
}

two_three_alone-IsFitting : IsFitting two_three_alone 1
two_three_alone-IsFitting = record {
  root_fits = omega arith;
  next_fits = λ a. ground arith;
  prev_fits = λ a. ground arith;
}

offset-small : 24 < 2 ^ 64
offset-small = omega arith

count-length_example : count 24 3 two_three_alone 1 ≡ some 2
count-length_example =
    count-length 24 offset-small 3 (2 ∷ 3 ∷ []) two_three_alone-IsFitting two_three_alone-Ring
      (omega arith) (omega arith)

iteration-Ring_example :
    (begin_then 24 1 two_three_alone 1 ≡ record { value = get_element_pointer 24 3 })
    × (iterator_eq (begin_then 24 1 two_three_alone 1) (end 24 1) ≡ false)
    × (pre_decrement 24 two_three_alone (begin_then 24 2 two_three_alone 1)
        ≡ begin_then 24 1 two_three_alone 1)
    × (begin_then 24 2 two_three_alone 1 ≡ end 24 1)
iteration-Ring_example =
    iteration-Ring 24 offset-small 1 (2 ∷ 3 ∷ []) two_three_alone-IsFitting two_three_alone-Ring
      (omega arith)
