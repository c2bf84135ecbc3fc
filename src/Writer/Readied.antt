-- ===== src/Writer/Readied.antt =====
-- The entries that `validate_request` of pipeline/root_writer.py returns.
use growth_clockwork.Prelude.{◌≡◌, subst, List, [], ◌∷◌, All}
use growth_clockwork.Prelude.Fallible.{Fallible, done, ◌>>=◌, check, bind-done, then-done}
use growth_clockwork.Json.{Json, Items, nil, cons, Fields}
use growth_clockwork.Writer.{Fault, RelPath}
use growth_clockwork.Writer.Profile.{Profile, Policy}
use growth_clockwork.Writer.Requests.{Host, validate_request_header}
use growth_clockwork.Writer.Writes.{
  Prepared, read_write, read_each_write, validate_request, read_writes_of, within,
}
use growth_clockwork.Writer.Targets.{Ready, done-injective, read_write-Ready}

read_each_write-Ready :
    (host : Host) (policy : Policy) (target : RelPath → Fallible Fault (Unit {0}))
    (seen : List RelPath) (vs : Items) (ws : List Prepared)
    → read_each_write host policy target seen vs ≡ done ws
    → All (Ready host policy) ws
unfolding read_each_write
read_each_write-Ready host policy target seen nil ws h =
    subst (All (Ready host policy)) (done-injective [] ws h) tt
read_each_write-Ready host policy target seen (cons v vs) ws h =
    let more : Prepared → Fallible Fault (List Prepared) =
      λ w. read_each_write host policy target (w.relative ∷ seen) vs >>= λ ws. done (w ∷ ws) in
    let (w, first, h1) = bind-done (read_write host policy target seen v) more ws h in
    let (rest, others, last) =
      bind-done (read_each_write host policy target (w.relative ∷ seen) vs) (λ ws. done (w ∷ ws)) ws
        h1 in
    subst (All (Ready host policy)) (done-injective (w ∷ rest) ws last) (
      read_write-Ready host policy target seen v w first,
      read_each_write-Ready host policy target (w.relative ∷ seen) vs rest others,
    )

-- Every entry that a valid request returns is ready.
pub validate_request-Ready :
    (host : Host) (profile : Profile) (linked target : RelPath → Fallible Fault (Unit {0}))
    (fs : Fields) (ws : List Prepared)
    → validate_request host profile linked target fs ≡ done ws
    → All (Ready host profile.policy) ws
unfolding validate_request
validate_request-Ready host profile linked target fs ws h =
    let accept = validate_request_header host fs profile in
    let writes = read_writes_of host profile.policy linked target in
    let (qs, first, h1) = bind-done (accept >>= writes) (within profile.policy) ws h in
    let (u, small, last) = then-done (check _ _) (done qs) ws h1 in
    let (header, accepted, each) = bind-done accept writes qs first in
    let (u2, counted, read) =
      then-done _
        (read_each_write host profile.policy target [] (cons header.first_write header.more_writes))
        qs each in
    subst (All (Ready host profile.policy)) (done-injective qs ws last) (
      read_each_write-Ready host profile.policy target []
        (cons header.first_write header.more_writes) qs read)

abbrev pub NonEmpty : List Prepared → Type 0
NonEmpty [] = ⊥
NonEmpty (w ∷ ws) = Unit

read_each_write-NonEmpty :
    (host : Host) (policy : Policy) (target : RelPath → Fallible Fault (Unit {0}))
    (seen : List RelPath) (v : Json) (vs : Items) (ws : List Prepared)
    → read_each_write host policy target seen (cons v vs) ≡ done ws
    → NonEmpty ws
unfolding read_each_write
read_each_write-NonEmpty host policy target seen v vs ws h =
    let more : Prepared → Fallible Fault (List Prepared) =
      λ w. read_each_write host policy target (w.relative ∷ seen) vs >>= λ ws. done (w ∷ ws) in
    let (w, first, h1) = bind-done (read_write host policy target seen v) more ws h in
    let (rest, others, last) =
      bind-done (read_each_write host policy target (w.relative ∷ seen) vs) (λ ws. done (w ∷ ws)) ws
        h1 in
    subst NonEmpty (done-injective (w ∷ rest) ws last) tt

-- A valid request has something to write.
pub validate_request-NonEmpty :
    (host : Host) (profile : Profile) (linked target : RelPath → Fallible Fault (Unit {0}))
    (fs : Fields) (ws : List Prepared)
    → validate_request host profile linked target fs ≡ done ws
    → NonEmpty ws
unfolding validate_request
validate_request-NonEmpty host profile linked target fs ws h =
    let accept = validate_request_header host fs profile in
    let writes = read_writes_of host profile.policy linked target in
    let (qs, first, h1) = bind-done (accept >>= writes) (within profile.policy) ws h in
    let (u, small, last) = then-done (check _ _) (done qs) ws h1 in
    let (header, accepted, each) = bind-done accept writes qs first in
    let entries = cons header.first_write header.more_writes in
    let (u2, counted, read) =
      then-done _ (read_each_write host profile.policy target [] entries) qs each in
    subst NonEmpty (done-injective qs ws last) (
      read_each_write-NonEmpty host profile.policy target [] header.first_write header.more_writes
        qs read)
