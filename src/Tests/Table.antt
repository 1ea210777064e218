-- ===== src/Tests/Table.antt =====
-- The shared table.
use cos_userspace.Base.{◌≡◌, ◌+◌, refl, arith, ok, err, out_of_fuel, Returns, inl, ◌>>=◌}
use cos_userspace.Epistle.{Table, cleared, add, get, add_loop, get_loop}
use cos_userspace.Epistle.Laws.{
  IsPlaced, cleared-IsPlaced, Reaches-of_stop, get-add_self, get-add_other, full_table_hangs,
}

get-add_self_example : Returns (add 512 7 1 cleared) (λ t'. IsPlaced t' × (get 512 7 t' ≡ ok 1))
get-add_self_example =
    get-add_self 512 (omega arith) 7 1 cleared (omega arith) cleared-IsPlaced
      (Reaches-of_stop cleared 7 0 (omega arith) (inl refl))

get-add_other_example : Returns (add 512 7 1 cleared) (λ t'. get 512 519 t' ≡ get 512 519 cleared)
get-add_other_example =
    get-add_other 512 (omega arith) 7 1 519 0 1 cleared (omega arith) (omega arith) (omega arith)
      cleared-IsPlaced (omega arith) (omega arith) (omega arith) refl refl

-- 512 threads with the numbers from 1000 on.
abbrev crowded : Table
crowded i = record { key = 1000 + i; value = 0 }

full_table_hangs_example :
    (add 600 7 1 crowded ≡ err out_of_fuel) × (get 600 7 crowded ≡ err out_of_fuel)
full_table_hangs_example =
    full_table_hangs 600 7 1 crowded (omega arith) (λ i h. ((λ e. omega arith), (λ e. omega arith)))

-- Two keys with one hash.
collide : add 512 7 1 cleared >>= add 512 519 3 >>= get 512 519 ≡ ok 3
unfolding add add_loop get get_loop
collide = refl
