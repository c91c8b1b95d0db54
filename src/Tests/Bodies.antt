-- ===== src/Tests/Bodies.antt =====
-- Request bodies against a limit of three bytes.
use legacylock.Prelude.{◌≡◌, ◌≤◌, ◌<◌, ◌⊎◌, refl, true, false, List, some, [], ◌∷◌}
use legacylock.Middleware.BodyLimit.{
  Message, body, passed, too_large, counted, body_limit, whole_body, writes, body_limit_decides,
}

abbrev parts : List Message
parts = body (1 ∷ 2 ∷ []) true ∷ body (3 ∷ []) false ∷ []

write_run : writes "POST" ≡ true
unfolding writes
write_run = refl

whole_run : whole_body parts ≡ some (1 ∷ 2 ∷ 3 ∷ [])
unfolding whole_body
whole_run = refl

body_limit_decides_example :
    ((3 ≤ 3)
      × ((ps : List Message) × (body_limit 3 true "POST" parts ≡ counted (passed ps))
          × (whole_body ps ≡ some (1 ∷ 2 ∷ 3 ∷ []))))
    ⊎ ((3 < 3) × (body_limit 3 true "POST" parts ≡ counted too_large))
body_limit_decides_example = body_limit_decides 3 "POST" parts (1 ∷ 2 ∷ 3 ∷ []) write_run whole_run
