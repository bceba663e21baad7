-- ===== src/Repairs/Updates.antt =====
-- What one desired repair sends, over the existing schedules (repair_schedules.go).
use mr_cassop.Prelude.{
  String, Bool, true, not, ◌&&◌, List, [], ◌∷◌, ◌++◌, any, ◌≡◌, if◌then◌else◌, arith, Outcome, Done,
  ◌>>◌, wrap, send, send_all, SameEffect, SameEffect-nil, SameEffect-one, SameEffect-append,
  is_empty, ap, sym, subst, ◌||◌, false, ◌==◌, string_eq, Exec,
}
use mathlib.Core.Path.{ap₂}
use mr_cassop.Backups.{same_list}
use mr_cassop.Prelude.Plans.{Follows-wrap}
use mr_cassop.Prelude.Order.{sort_strings, sort_strings_twice, is_empty-sort_strings}
use mr_cassop.Repairs.{
  Schedule, Repair, Call, stop, delete, create, Setting, same_repair, to_reaper_repair,
  repair_schedules_equal, sorted_schedule, sorted_repair, rescheduled, remove_repair_schedule,
  create_repair_schedule, update_existing,
}

-- The repair as it is sent: once it was compared with any schedule, its tables are sorted.
abbrev pub compared : List Schedule → Repair → Repair
compared existing r = if is_empty existing then r else sorted_repair r

-- A schedule of the same repair with other settings is replaced.
unfoldable pub replacements : Setting → Repair → List Schedule → List Call
replacements st r [] = []
replacements st r (s ∷ ss) =
    if same_repair s r
      && not (repair_schedules_equal (sorted_schedule s) (to_reaper_repair st.parse_float r))
    then stop s.id ∷ delete s.id ∷ create (rescheduled st r) ∷ [] ++ replacements st r ss
    else replacements st r ss

abbrev pub if_missing : Setting → Repair → Bool → List Call
if_missing st r found = if found then [] else create (rescheduled st r) ∷ []

pub remove-plan :
    (st : Setting) (id : String) (sent : List Call)
    → SameEffect
        (remove_repair_schedule st id sent)
        (send_all st.answer (stop id ∷ delete id ∷ []) sent)
unfolding remove_repair_schedule
remove-plan st id sent =
    SameEffect-append st.answer (wrap "failed to stop repair schedule" (send st.answer (stop id)))
      (wrap "failed to delete repair schedule" (send st.answer (delete id))) (stop id ∷ [])
      (delete id ∷ []) sent
      (SameEffect-one st.answer "failed to stop repair schedule" (stop id) sent)
      (λ t. SameEffect-one st.answer "failed to delete repair schedule" (delete id) t)

pub create-plan :
    (st : Setting) (r : Repair) (sent : List Call)
    → SameEffect
        (wrap "failed to create a repair schedule" (create_repair_schedule st r) sent)
        (send_all st.answer (create (rescheduled st r) ∷ []) sent)
unfolding create_repair_schedule
create-plan st r sent =
    Follows-wrap st.answer "failed to create a repair schedule"
      (wrap "failed to create a repair schedule" (send st.answer (create (rescheduled st r))))
      (create (rescheduled st r) ∷ [])
      (SameEffect-one st.answer "failed to create a repair schedule" (create (rescheduled st r)))
      sent

replace-plan :
    (st : Setting) (r : Repair) (id : String) (next : List Call → Outcome Done × List Call)
    (rest sent : List Call)
    → ((t : List Call) → SameEffect (next t) (send_all st.answer rest t))
    → SameEffect
        ((remove_repair_schedule st id
            >> (wrap "failed to create a repair schedule" (create_repair_schedule st r) >> next))
          sent)
        (send_all st.answer (stop id ∷ delete id ∷ create (rescheduled st r) ∷ rest) sent)
replace-plan st r id next rest sent h =
    let again = wrap "failed to create a repair schedule" (create_repair_schedule st r) in
    SameEffect-append st.answer (remove_repair_schedule st id) (again >> next)
      (stop id ∷ delete id ∷ []) (create (rescheduled st r) ∷ rest) sent (remove-plan st id sent)
      (λ t.
        SameEffect-append st.answer again next (create (rescheduled st r) ∷ []) rest t
          (create-plan st r t) h)

same_repair-sorted : (s : Schedule) (r : Repair) → same_repair s (sorted_repair r) ≡ same_repair s r
unfolding same_repair
same_repair-sorted s r =
    ap₂
      (λ t e.
        s.keyspace == r.keyspace
        && (same_list (sort_strings s.tables) t || (e && is_empty s.tables)))
      (sort_strings_twice r.tables) (is_empty-sort_strings r.tables)

pub sorted_twice : (r : Repair) → sorted_repair (sorted_repair r) ≡ sorted_repair r
sorted_twice r = ap (λ t. record r { tables = t }) (sort_strings_twice r.tables)

-- The existing schedule has other settings than the repair.
abbrev differs : Setting → Schedule → Repair → Bool
differs st s r =
    not (repair_schedules_equal (sorted_schedule s) (to_reaper_repair st.parse_float r))

abbrev turn : Setting → Repair → String → Bool → Exec (List Call) Done → Exec (List Call) Done
turn st r id replace next sent =
    if replace
    then (remove_repair_schedule st id
          >> (wrap "failed to create a repair schedule" (create_repair_schedule st r) >> next))
        sent
    else next sent

turn-plan :
    (st : Setting) (r : Repair) (id : String) (replace : Bool) (next : Exec (List Call) Done)
    (cs ds sent : List Call)
    → ((t : List Call) → SameEffect (next t) (send_all st.answer (cs ++ ds) t))
    → SameEffect (turn st r id replace next sent) (
        send_all st.answer
          ((if replace then stop id ∷ delete id ∷ create (rescheduled st r) ∷ [] ++ cs else cs)
            ++ ds)
          sent)
turn-plan st r id true next cs ds sent h = replace-plan st r id next (cs ++ ds) sent h
turn-plan st r id false next cs ds sent h = h sent

or_assoc : (a b c : Bool) → ((a || b) || c) ≡ (a || (b || c))
or_assoc a b c = ground arith

-- For a repair whose tables are sorted.
pub update_existing-plan :
    (st : Setting) (r : Repair) (found : Bool) (ss : List Schedule) (sent : List Call)
    → sorted_repair r ≡ r
    → SameEffect (update_existing st r found ss sent) (
        send_all st.answer
          (replacements st r ss ++ if_missing st r (found || any (λ s. same_repair s r) ss))
          sent)
unfolding update_existing replacements
update_existing-plan st r true [] sent e = SameEffect-nil st.answer sent
update_existing-plan st r false [] sent e = create-plan st r sent
update_existing-plan st r found (s ∷ ss) sent e =
    let same = same_repair s r in
    subst
      (λ wanted.
        SameEffect
          (turn st wanted s.id (same && differs st s wanted)
            (update_existing st wanted (found || same) ss) sent)
          (send_all st.answer
            (replacements st r (s ∷ ss)
              ++ if_missing st r (found || any (λ t. same_repair t r) (s ∷ ss)))
            sent))
      (sym e)
      (turn-plan st r s.id (same && differs st s r) (update_existing st r (found || same) ss)
        (replacements st r ss) (if_missing st r (found || any (λ t. same_repair t r) (s ∷ ss))) sent
        (λ t.
          subst
            (λ b.
              SameEffect (update_existing st r (found || same) ss t)
                (send_all st.answer (replacements st r ss ++ if_missing st r b) t))
            (or_assoc found same (any (λ t. same_repair t r) ss))
            (update_existing-plan st r (found || same) ss t e)))

-- The first comparison sorts the tables.
pub update_existing-sorted :
    (st : Setting) (r : Repair) (found : Bool) (s : Schedule) (ss : List Schedule)
    → update_existing st (sorted_repair r) found (s ∷ ss) ≡ update_existing st r found (s ∷ ss)
unfolding update_existing
update_existing-sorted st r found s ss =
    ap₂
      (λ same wanted.
        turn st wanted s.id (same && differs st s wanted)
          (update_existing st wanted (found || same) ss))
      (same_repair-sorted s r) (sorted_twice r)
