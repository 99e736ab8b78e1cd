-- ===== src/Calls/Ids.antt =====
-- Call ids stay unique under every write of src/calls/call.service.ts, also the one of `accept`,
-- which names a row by its id alone.
use samy.Prelude.{ℕ, ◌≡◌, refl, List, [], ◌∷◌, arith, any, update_many}
use samy.Database.Rows.{Call}
use samy.Database.Queries.{call_has_id}
use samy.Calls.{activate}
use samy.Calls.Lifecycle.{Evolves, UniqueIds}

any-Evolves :
    (id : ℕ) (cs ds : List Call) → Evolves cs ds → any (call_has_id id) ds ≡ any (call_has_id id) cs
any-Evolves id [] [] e = refl
any-Evolves id [] (d ∷ ds) e = absurd e
any-Evolves id (c ∷ cs) [] e = absurd e
any-Evolves id (c ∷ cs) (d ∷ ds) e = ground (arith, e.0.same_id, any-Evolves id cs ds e.1)

pub UniqueIds-Evolves : (cs ds : List Call) → Evolves cs ds → UniqueIds cs → UniqueIds ds
UniqueIds-Evolves [] [] e u = tt
UniqueIds-Evolves [] (d ∷ ds) e u = absurd e
UniqueIds-Evolves (c ∷ cs) [] e u = absurd e
UniqueIds-Evolves (c ∷ cs) (d ∷ ds) e u =
    (rw (e.0.same_id, any-Evolves c.id cs ds e.1) u.0, UniqueIds-Evolves cs ds e.1 u.1)

any-activate :
    (id k now : ℕ) (cs : List Call)
    → any (call_has_id k) (update_many (call_has_id id) (activate now) cs) ≡ any (call_has_id k) cs
any-activate id k now [] = refl
any-activate id k now (c ∷ cs) = ground (arith, any-activate id k now cs)

pub UniqueIds-activate :
    (id now : ℕ) (cs : List Call)
    → UniqueIds cs
    → UniqueIds (update_many (call_has_id id) (activate now) cs)
UniqueIds-activate id now [] u = tt
UniqueIds-activate id now (c ∷ cs) u =
    (ground (arith, any-activate id c.id now cs, u.0), UniqueIds-activate id now cs u.1)
