-- ===== src/Witnesses/Whole.antt =====
-- A run from the walk to the output on the sample.
use ccmock.Base.{false, ◌≡◌, refl, inl, ok, All}
use ccmock.Sample.{sample, insertion_order}
use ccmock.Generator.{Host, Sink}
use ccmock.Writer.{mock_name}
use ccmock.MockAction.{generate}
use ccmock.MockAction.Generates.{IsPlaced, generate-gmock}
use ccmock.Gmock.{gmock_policy}
use ccmock.Witnesses.Walk.{prefix_glob, cfg, visits, walked, walk_ends}
use ccmock.Witnesses.Backends.{
  depth, sample-IsNested, sample-IsNamed, sample-HasFunctions, insertion_order-IsOrder,
}

abbrev pub surroundings : Host
surroundings = record {
  version = "1.0.0";
  website = "https://example.org";
  now = "today";
  relative = λ path base. path;
  opens = λ path. false;
}

pub walked-IsPlaced : All (IsPlaced sample) walked.function_decls
unfolding mock_name
walked-IsPlaced = (
  record { called = ("dispatch", refl); enclosed = (1, refl) },
  (record { called = ("next", refl); enclosed = (0, refl) }, tt),
)

generate-gmock_example :
    (s : Sink) × (generate sample insertion_order cfg surroundings prefix_glob gmock_policy visits
      ≡ ok s)
generate-gmock_example =
    generate-gmock sample depth sample-IsNested sample-IsNamed sample-HasFunctions insertion_order
      insertion_order-IsOrder cfg surroundings prefix_glob gmock_policy visits walk_ends refl
      walked-IsPlaced (inl refl)
