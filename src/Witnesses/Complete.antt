-- ===== src/Witnesses/Complete.antt =====
-- The functions of the sample in the output of each generator.
use ccmock.Base.{true, [], ◌∷◌, ◌≡◌, ◌<>◌, refl, inl, All, ok, String}
use ccmock.Config.{default_fff, default_gmock, default_cmocka}
use ccmock.Sample.{sample, insertion_order, next_decl, count_decl}
use ccmock.Writer.{append}
use ccmock.Generator.{Sink, write_global_variables}
use ccmock.Generator.Variables.{
  HasVariables, variable_text, with_tags, write_global_variables-concat,
}
use ccmock.Writer.Texts.{concat}
use ccmock.Gmock
use ccmock.Gmock.{gmock_policy}
use ccmock.Gmock.Texts.{IsMocked, IsDefined}
use ccmock.Gmock.Complete.{run-IsMocked}
use ccmock.Fff
use ccmock.Fff.Complete.{IsFaked, run-IsFaked}
use ccmock.Cmocka
use ccmock.Cmocka.Complete.{run-IsDefined}
use ccmock.MockAction.{backend_policy, generate}
use ccmock.MockAction.Output.{sink_text}
use ccmock.MockAction.Complete.{Outputs, generate-Outputs}
use ccmock.Witnesses.Walk.{prefix_glob, cfg, visits, walked, walk_ends}
use ccmock.Witnesses.Backends.{
  depth, sample-IsNested, sample-IsNamed, sample-IsRooted, insertion_order-IsOrder, start, both,
  fff_start, visit_decl, sample-HasFunctions, both-IsWritable,
}
use ccmock.Witnesses.Whole.{surroundings, walked-IsPlaced}
use ccmock.Witnesses.Generators.{
  sample-IsBraced, sample-HasFunctionDecls, sample-IsContained, insertion_order-IsExhaustive,
  both-IsOwn,
}

run-IsMocked_example :
    (t : Gmock.State) × (text : String) × (Gmock.run sample insertion_order default_gmock true both
        (count_decl ∷ [])
        start
      ≡ ok t)
    × (t.writer ≡ append text start.writer)
    × All
        (λ d. IsMocked gmock_policy d text × IsDefined sample default_gmock d gmock_policy text)
        both
    × HasVariables (count_decl ∷ []) gmock_policy text
run-IsMocked_example =
    run-IsMocked sample depth sample-IsNested sample-IsNamed default_gmock sample-HasFunctions
      sample-IsRooted sample-IsContained insertion_order insertion_order-IsOrder
      insertion_order-IsExhaustive both both-IsWritable true (count_decl ∷ []) start both-IsOwn

run-IsFaked_example :
    (t : Fff.State) × (text : String) × (Fff.run default_fff
        (visit_decl ∷ next_decl ∷ [])
        (count_decl ∷ [])
        fff_start
      ≡ ok t)
    × (t.writer ≡ append text fff_start.writer)
    × All
        (λ d. IsFaked default_fff t.typedef_map d fff_start.writer.policy text)
        (visit_decl ∷ next_decl ∷ [])
    × HasVariables (count_decl ∷ []) gmock_policy text
run-IsFaked_example =
    run-IsFaked default_fff (visit_decl ∷ next_decl ∷ []) (count_decl ∷ []) fff_start

run-IsDefined_example :
    (text : String) × (Cmocka.run default_cmocka both (count_decl ∷ []) start.writer
      ≡ ok (append text start.writer))
    × All (λ d. Cmocka.Complete.IsDefined default_cmocka d gmock_policy text) both
    × HasVariables (count_decl ∷ []) gmock_policy text
run-IsDefined_example = run-IsDefined default_cmocka both (count_decl ∷ []) start.writer

generate-Outputs_example :
    (s : Sink) × (generate sample insertion_order cfg surroundings prefix_glob gmock_policy visits
      ≡ ok s)
    × Outputs sample cfg cfg.mocking.backend walked.function_decls walked.var_decls gmock_policy
        (sink_text s)
unfolding backend_policy
generate-Outputs_example =
    generate-Outputs sample depth sample-IsNested sample-IsNamed sample-IsRooted sample-IsContained
      sample-HasFunctions sample-HasFunctionDecls sample-IsBraced insertion_order
      insertion_order-IsOrder insertion_order-IsExhaustive cfg surroundings prefix_glob gmock_policy
      visits walk_ends walked-IsPlaced both-IsOwn (inl refl)

write_global_variables-concat_example :
    write_global_variables (count_decl ∷ []) start.writer
    ≡ ok (
        append
          (concat (count_decl ∷ []) (variable_text (with_tags gmock_policy)) <> "\n")
          start.writer)
write_global_variables-concat_example = write_global_variables-concat (count_decl ∷ []) start.writer
