-- ===== src/Print/Served.antt =====
-- Each category of an order is printed where its route, or the station of the kitchen, has it.
use mathlib.Core.Path.{subst}
use menuvex_printer.Entity.{Entity}
use menuvex_printer.Prelude.{
  Bool-cases, List, Map, Option, String, [], arith, eq_iff, eq_refl, if_both, inl, inr, lookup,
  none, refl, some, str_eq, string_eq, sym, true, ◌∷◌, ◌≡◌, ◌⊎◌,
}
use menuvex_printer.Prelude.Int.{ℤ, ◌*ℤ◌}
use menuvex_printer.Print.Enqueue.{at_station, kitchen_tickets, route_one, routed}
use menuvex_printer.Print.Kitchen.{
  AreTickets, HasTicket, add_kitchen-AreTickets, add_kitchen-covers, add_kitchen-keeps,
  is_in-append_left, is_in-append_right,
}
use menuvex_printer.Print.Wants.{RouteInfo, Wanted, is_in}
use menuvex_printer.Text.Decimal.{wrap_int64}

route_one-AreTickets :
    (n : ℤ) (c : String) (o : Option RouteInfo) (acc : List Wanted × List String)
    → AreTickets acc.0
    → AreTickets (route_one n c o acc).0
unfolding route_one
route_one-AreTickets n c none acc h = h
route_one-AreTickets n c (some ri) acc h =
    add_kitchen-AreTickets ri.printer (some (c ∷ [])) (wrap_int64 (n *ℤ ri.copies)) acc.0 h

routed-AreTickets :
    (routes : Map String RouteInfo) (n : ℤ) (cs : List String) (acc : List Wanted × List String)
    → AreTickets acc.0
    → AreTickets (routed routes n cs acc).0
unfolding routed
routed-AreTickets routes n [] acc h = h
routed-AreTickets routes n (c ∷ cs) acc h =
    routed-AreTickets routes n cs _ (route_one-AreTickets n c (lookup c routes) acc h)

-- Where a category is once the loop has gone over it: on a ticket of the printer of its route, or left over.
abbrev Placed : Option RouteInfo → String → List Wanted × List String → Type 0
Placed (some ri) c acc = HasTicket ri.printer.id c acc.0
Placed none c acc = is_in c acc.1 ≡ true

route_one-keeps :
    (n : ℤ) (o p : Option RouteInfo) (c d : String) (acc : List Wanted × List String)
    → Placed o c acc
    → Placed o c (route_one n d p acc)
unfolding route_one
route_one-keeps n none none c d acc h = is_in-append_left c acc.1 (d ∷ []) h
route_one-keeps n none (some ri) c d acc h = h
route_one-keeps n (some q) none c d acc h = h
route_one-keeps n (some q) (some ri) c d acc h =
    add_kitchen-keeps ri.printer (some (d ∷ [])) (wrap_int64 (n *ℤ ri.copies)) q.printer.id c acc.0
      h

route_one-Placed :
    (n : ℤ) (o : Option RouteInfo) (c : String) (acc : List Wanted × List String)
    → Placed o c (route_one n c o acc)
unfolding route_one is_in
route_one-Placed n none c acc = is_in-append_right c acc.1 (c ∷ []) (ground (arith, eq_refl c))
route_one-Placed n (some ri) c acc =
    add_kitchen-covers ri.printer (some (c ∷ [])) (wrap_int64 (n *ℤ ri.copies)) c acc.0
      (ground (arith, eq_refl c))

routed-keeps :
    (routes : Map String RouteInfo) (n : ℤ) (o : Option RouteInfo) (c : String) (cs : List String)
    (acc : List Wanted × List String)
    → Placed o c acc
    → Placed o c (routed routes n cs acc)
unfolding routed
routed-keeps routes n o c [] acc h = h
routed-keeps routes n o c (d ∷ cs) acc h =
    routed-keeps routes n o c cs _ (route_one-keeps n o (lookup d routes) c d acc h)

routed-Placed :
    (routes : Map String RouteInfo) (n : ℤ) (c : String) (cs : List String)
    (acc : List Wanted × List String)
    → is_in c cs ≡ true
    → Placed (lookup c routes) c (routed routes n cs acc)
unfolding routed is_in
routed-Placed routes n c [] acc h = cc
routed-Placed routes n c (d ∷ cs) acc h = elim (Bool-cases (str_eq d c)) [
  | inl e ↦
      let same : d ≡ c = (eq_iff d c).0 e in
      subst
        (λ x. Placed (lookup c routes) c (routed routes n cs (route_one n x (lookup x routes) acc)))
        (sym same)
        (routed-keeps routes n (lookup c routes) c cs _
          (route_one-Placed n (lookup c routes) c acc))
  | inr other ↦ routed-Placed routes n c cs _ (ground (arith, other, h))
]

-- A category has a ticket on the printer of its route; without one, on the station of the kitchen, unless there
-- is none, or no route at all and the station is the till.
abbrev pub Served :
    Map String RouteInfo → Option Entity → Entity → String → Option RouteInfo → List Wanted → Type 0
Served routes station cashier c (some ri) ws = HasTicket ri.printer.id c ws
Served routes none cashier c none ws = Unit {0}
Served routes (some kp) cashier c none ws =
    ((routes ≡ []) × (str_eq kp.id cashier.id ≡ true)) ⊎ HasTicket kp.id c ws

at_station-AreTickets :
    (routes : Map String RouteInfo) (station : Option Entity) (cashier : Entity) (n : ℤ)
    (acc : List Wanted × List String)
    → AreTickets acc.0
    → AreTickets (at_station routes station cashier n acc)
unfolding at_station
at_station-AreTickets [] none cashier n acc h = h
at_station-AreTickets [] (some kp) cashier n acc h =
    if_both AreTickets (str_eq kp.id cashier.id) _ _ h (add_kitchen-AreTickets kp none n acc.0 h)
at_station-AreTickets (r ∷ rs) station cashier n (ws, []) h = h
at_station-AreTickets (r ∷ rs) none cashier n (ws, l ∷ ls) h = h
at_station-AreTickets (r ∷ rs) (some kp) cashier n (ws, l ∷ ls) h =
    add_kitchen-AreTickets kp (some (l ∷ ls)) n ws h

at_station-Served :
    (routes : Map String RouteInfo) (station : Option Entity) (cashier : Entity) (n : ℤ)
    (c : String) (o : Option RouteInfo) (acc : List Wanted × List String)
    → Placed o c acc
    → Served routes station cashier c o (at_station routes station cashier n acc)
unfolding at_station is_in
at_station-Served [] none cashier n c none acc h = tt
at_station-Served [] none cashier n c (some ri) acc h = h
at_station-Served [] (some kp) cashier n c none acc h =
    elim (Bool-cases (str_eq kp.id cashier.id)) [
      | inl e ↦ inl (refl, e)
      | inr d ↦ rw (d) (inr (add_kitchen-covers kp none n c acc.0 refl))
    ]
at_station-Served [] (some kp) cashier n c (some ri) acc h =
    if_both (HasTicket ri.printer.id c) (str_eq kp.id cashier.id) _ _ h
      (add_kitchen-keeps kp none n ri.printer.id c acc.0 h)
at_station-Served (r ∷ rs) none cashier n c none (ws, []) h = tt
at_station-Served (r ∷ rs) (some kp) cashier n c none (ws, []) h = cc
at_station-Served (r ∷ rs) station cashier n c (some ri) (ws, []) h = h
at_station-Served (r ∷ rs) none cashier n c none (ws, l ∷ ls) h = tt
at_station-Served (r ∷ rs) none cashier n c (some ri) (ws, l ∷ ls) h = h
at_station-Served (r ∷ rs) (some kp) cashier n c none (ws, l ∷ ls) h =
    inr (add_kitchen-covers kp (some (l ∷ ls)) n c ws h)
at_station-Served (r ∷ rs) (some kp) cashier n c (some ri) (ws, l ∷ ls) h =
    add_kitchen-keeps kp (some (l ∷ ls)) n ri.printer.id c ws h

-- The kitchen gets one ticket at most for a printer, of one to five copies.
pub kitchen_tickets-AreTickets :
    (routes : Map String RouteInfo) (station : Option Entity) (cashier : Entity) (n : ℤ)
    (cs : List String)
    → AreTickets (kitchen_tickets routes station cashier n cs)
unfolding kitchen_tickets
kitchen_tickets-AreTickets routes station cashier n cs =
    at_station-AreTickets routes station cashier n _ (routed-AreTickets routes n cs ([], []) tt)

-- Each category of the order, in whatever order Go's range visits them: its ticket is on the printer of its
-- route, and where it has no route, on the station of the kitchen, unless there is no station, or no route
-- of any category and the station is the till.
pub kitchen_tickets-Served :
    (routes : Map String RouteInfo) (station : Option Entity) (cashier : Entity) (n : ℤ)
    (cs : List String) (c : String)
    → is_in c cs ≡ true
    → Served routes station cashier c
        (lookup c routes)
        (kitchen_tickets routes station cashier n cs)
unfolding kitchen_tickets
kitchen_tickets-Served routes station cashier n cs c h =
    at_station-Served routes station cashier n c (lookup c routes) (routed routes n cs ([], []))
      (routed-Placed routes n c cs ([], []) h)
