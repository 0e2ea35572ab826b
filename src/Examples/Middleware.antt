-- ===== src/Examples/Middleware.antt =====
-- The middleware and the tuning of a worker at concrete inputs (backend/middleware, backend/jobs/worker.go).
use lok_lingo.Prelude.{◌≡◌, refl, true, false, List, [], ◌∷◌}
use lok_lingo.Prelude.Int.{pos}
use lok_lingo.Go.Text.{
  Text, codes, text_eq, is_empty, trim_space, to_lower, has_prefix, trim_left, trim_right, is_space,
}
use lok_lingo.Middleware.Auth.{write_api_auth, presented, bearer, write_api_auth-next}
use lok_lingo.Middleware.Gate.{GateEvent, comes, is_done, serve, handle, enter, complete, leave}
use lok_lingo.Middleware.Gate.Cap.{IsCap, idle, on_route, IsCapped, serve-IsCapped}

abbrev image_path : Text
image_path = codes "/i"

-- Two requests of the route come in and one of another, and the first is done.
abbrev three_come : List GateEvent
three_come = comes image_path ∷ comes (codes "/t") ∷ comes image_path ∷ is_done 2 ∷ []

two-IsCap : IsCap (pos 2) 2
two-IsCap = record {
  positive = λ n e. cc;
  at_zero = λ e. absurd (cc);
  negative = λ n e. absurd (cc);
}

serve-IsCapped_example : IsCapped (pos 2) image_path 2 (serve (pos 2) image_path three_come idle)
serve-IsCapped_example = serve-IsCapped (pos 2) image_path 2 three_come two-IsCap

one_left : on_route image_path (serve (pos 2) image_path three_come idle).running ≡ 1
unfolding serve handle enter complete leave
one_left = refl

write_api_auth-next_example :
    (is_empty (trim_space (codes "s3")) ≡ false)
    × (text_eq (presented [] (codes "Bearer s3")) (trim_space (codes "s3")) ≡ true)
unfolding write_api_auth presented bearer trim_space trim_left trim_right to_lower has_prefix
    is_space
write_api_auth-next_example =
    write_api_auth-next (codes "Production") (codes "s3") [] (codes "Bearer s3") refl refl
