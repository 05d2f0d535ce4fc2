-- ===== src/Loop/Tests.antt =====
-- Concrete terminals for the classifier of treasury/randomized_loop.py.
use treasury_intent_controll.Base.{◌≡◌, refl}
use treasury_intent_controll.Loop.{bucket}

bucket_runs : bucket "FAILED" "unevaluable:human-judgment:tenor" ≡ "unevaluable:human-judgment"
unfolding bucket
bucket_runs = refl
