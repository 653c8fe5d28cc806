-- ===== src/RestartHandler/Restarts.antt =====
-- userspace/falco/app/restart_handler.cpp: what has to happen before a restart is asked for.
use falco.Prelude.{
  ◌≡◌, refl, sym, ap, ◌∙◌, ◌↔◌, Bool, true, false, not, ◌&&◌, List, [], ◌∷◌, nat_eq, string_eq,
  list_eq,
}
use falco.RestartHandler.{
  Selected, select_error, timed_out, ready, ReadResult, read_error, no_data, some_data, Iteration,
  Watcher, Turn, continues, triggered, stopped, failed, on_quiet, dismissed, due, on_read,
  watch_turn, watch_turns,
}

-- The turns that the loop has taken, the last one first, and the locals after them.
pub data Reaches : List Iteration → Watcher → Type 0 where
  start : Reaches [] dismissed
  turn :
      {is : List Iteration} {w : Watcher} (i : Iteration) (w' : Watcher)
      → Reaches is w
      → watch_turn i w ≡ continues w'
      → Reaches (i ∷ is) w'

-- A turn that meets neither an event nor a forced request.
abbrev pub is_quiet : Iteration → Bool
is_quiet i =
    not i.m_stop && (elim i.rv [ select_error ↦ false | timed_out ↦ not i.forced | ready ↦ false ])

-- A turn that meets an event with its data, or a forced request.
abbrev pub is_request : Iteration → Bool
is_request i = not i.m_stop && (elim i.rv [
  | select_error ↦ false
  | timed_out ↦ i.forced
  | ready ↦ elim i.n [ read_error ↦ false | no_data ↦ i.forced | some_data ↦ true ]
])

-- The last turn was a request.
abbrev pub is_due : List Iteration → Bool
is_due [] = false
is_due (i ∷ is) = is_request i

-- The last turn was quiet, its dry run was successful, and it followed a request.
abbrev pub has_passed : List Iteration → Bool
has_passed [] = false
has_passed (i ∷ is) = is_quiet i && (i.on_check && is_due is)

-- What a turn that goes on leaves.
after_turn : Iteration → Watcher → Watcher
after_turn i w = record {
  should_check = is_request i;
  should_restart = is_quiet i && (i.on_check && w.should_check);
}

left_of : (a b : Bool) → (a && b) ≡ true → a ≡ true
left_of true b h = refl
left_of false b h = cc

next : Turn → Watcher
next (continues w) = w
next triggered = dismissed
next stopped = dismissed
next failed = dismissed

IsLike : Turn → Iteration → Watcher → Type 0
IsLike t i w =
    ((w' : Watcher) → t ≡ continues w' → w' ≡ after_turn i w)
    × ((t ≡ triggered) ↔ (is_quiet i ≡ true) × (w.should_check ≡ false) × (w.should_restart ≡ true))

-- By the cases of the fields.
fields-IsLike :
    (stop : Bool) (rv : Selected) (forced : Bool) (on_check : Bool) (n : ReadResult)
    (should_check should_restart : Bool)
    → (let i : Iteration = record {
      m_stop = stop;
      rv = rv;
      forced = forced;
      on_check = on_check;
      n = n;
    } in
        let w : Watcher = record { should_check = should_check; should_restart = should_restart } in
        IsLike (watch_turn i w) i w)
unfolding watch_turn on_read on_quiet IsLike after_turn next
fields-IsLike true rv f c n a b = (λ w' h. cc, (λ h. cc, λ h. cc))
fields-IsLike false select_error f c n a b = (λ w' h. cc, (λ h. cc, λ h. cc))
fields-IsLike false timed_out true c n a b = (λ w' h. sym (ap next h), (λ h. cc, λ h. cc))
fields-IsLike false timed_out false true n true b = (λ w' h. sym (ap next h), (λ h. cc, λ h. cc))
fields-IsLike false timed_out false false n true b = (λ w' h. sym (ap next h), (λ h. cc, λ h. cc))
fields-IsLike false timed_out false c n false true =
    (λ w' h. cc, (λ h. (refl, refl, refl), λ h. refl))
fields-IsLike false timed_out false true n false false =
    (λ w' h. sym (ap next h), (λ h. cc, λ h. cc))
fields-IsLike false timed_out false false n false false =
    (λ w' h. sym (ap next h), (λ h. cc, λ h. cc))
fields-IsLike false ready f c read_error a b = (λ w' h. cc, (λ h. cc, λ h. cc))
fields-IsLike false ready true c some_data a b = (λ w' h. sym (ap next h), (λ h. cc, λ h. cc))
fields-IsLike false ready false c some_data a b = (λ w' h. sym (ap next h), (λ h. cc, λ h. cc))
fields-IsLike false ready true c no_data a b = (λ w' h. sym (ap next h), (λ h. cc, λ h. cc))
fields-IsLike false ready false c no_data a b = (λ w' h. sym (ap next h), (λ h. cc, λ h. cc))

watch_turn-IsLike : (i : Iteration) (w : Watcher) → IsLike (watch_turn i w) i w
watch_turn-IsLike i w =
    fields-IsLike i.m_stop i.rv i.forced i.on_check i.n w.should_check w.should_restart

quiet_fields :
    (stop forced : Bool) (rv : Selected) (on_check : Bool) (n : ReadResult)
    → (let i : Iteration = record {
      m_stop = stop;
      rv = rv;
      forced = forced;
      on_check = on_check;
      n = n;
    } in
        is_quiet i ≡ true → is_request i ≡ false)
quiet_fields true forced rv c n h = refl
quiet_fields false true select_error c n h = refl
quiet_fields false false select_error c n h = refl
quiet_fields false true timed_out c n h = cc
quiet_fields false false timed_out c n h = refl
quiet_fields false forced ready c n h = cc

passed-not_due : (is : List Iteration) → has_passed is ≡ true → is_due is ≡ false
passed-not_due [] h = refl
passed-not_due (i ∷ is) h =
    quiet_fields i.m_stop i.forced i.rv i.on_check i.n (left_of (is_quiet i) _ h)

-- The locals say what the last turns were.
Reaches-locals :
    (is : List Iteration) (w : Watcher)
    → Reaches is w
    → (w.should_check ≡ is_due is) × (w.should_restart ≡ has_passed is)
unfolding IsLike after_turn
Reaches-locals _ _ start = (refl, refl)
Reaches-locals _ _ (turn {is} {w} i w' r e) =
    let (d, p) = Reaches-locals is w r in
    let q : w' ≡ after_turn i w = (watch_turn-IsLike i w).0 w' e in
    (ap (λ x. x.should_check) q, ap (λ x. x.should_restart) q ∙ rw d refl)

-- A restart is asked for exactly in a quiet turn after a quiet turn with a successful dry run, which
-- came directly after an event or a forced request.
pub watch_turn-triggered_iff :
    (is : List Iteration) (w : Watcher) (i : Iteration)
    → Reaches is w
    → (watch_turn i w ≡ triggered) ↔ (is_quiet i ≡ true) × (has_passed is ≡ true)
unfolding IsLike
watch_turn-triggered_iff is w i r =
    let (d, p) = Reaches-locals is w r in
    let (f, g) = (watch_turn-IsLike i w).1 in
    (λ h. let (q, _, x) = f h in (q, sym p ∙ x), λ (q, h). g (q, d ∙ passed-not_due is h, p ∙ h))

request_fields :
    (stop forced : Bool) (rv : Selected) (on_check : Bool) (n : ReadResult) (w : Watcher)
    → (let i : Iteration = record {
      m_stop = stop;
      rv = rv;
      forced = forced;
      on_check = on_check;
      n = n;
    } in
        is_request i ≡ true → watch_turn i w ≡ continues due)
unfolding watch_turn on_read
request_fields true forced rv c n w h = cc
request_fields false forced select_error c n w h = cc
request_fields false true timed_out c n w h = refl
request_fields false false timed_out c n w h = cc
request_fields false forced ready c read_error w h = cc
request_fields false true ready c no_data w h = refl
request_fields false false ready c no_data w h = cc
request_fields false forced ready c some_data w h = refl

after_quiet :
    (stop forced : Bool) (rv : Selected) (on_check : Bool) (n : ReadResult) (w : Watcher)
    → (let i : Iteration = record {
      m_stop = stop;
      rv = rv;
      forced = forced;
      on_check = on_check;
      n = n;
    } in
        is_quiet i ≡ true → watch_turn i w ≡ on_quiet on_check w)
unfolding watch_turn
after_quiet true forced rv c n w h = cc
after_quiet false forced select_error c n w h = cc
after_quiet false true timed_out c n w h = cc
after_quiet false false timed_out c n w h = refl
after_quiet false forced ready c n w h = cc

-- Whatever came before, a request and two quiet turns with a successful dry run end the loop with
-- the restart.
pub watch_turns-restarts :
    (r c q : Iteration) (is : List Iteration) (w : Watcher)
    → is_request r ≡ true
    → is_quiet c ≡ true
    → c.on_check ≡ true
    → is_quiet q ≡ true
    → watch_turns (r ∷ c ∷ q ∷ is) w ≡ triggered
unfolding watch_turns on_quiet
watch_turns-restarts r c q is w a b ok d =
    let passed : Watcher = record { should_check = false; should_restart = true } in
    let e = request_fields r.m_stop r.forced r.rv r.on_check r.n w a in
    let f : watch_turn c due ≡ continues passed =
      after_quiet c.m_stop c.forced c.rv c.on_check c.n due b
      ∙ ap (λ x. continues (record { should_check = false; should_restart = x })) ok in
    let g = after_quiet q.m_stop q.forced q.rv q.on_check q.n passed d in
    rw (e, watch_turns) (rw (f, watch_turns) (rw (g, watch_turns) refl))
