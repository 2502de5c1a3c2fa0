-- ===== src/Pipeline.antt =====
-- engine/parser.py: the typed pipeline and its dict form, which the scheduler, the resolver and the
-- runner read. A cpu request is a number of 1/100000 cores: the float itself is not modelled.
use forge_ci_cd_platform.Base.{ℕ, List, [], ◌∷◌, Option, none, some, map, Str}
use forge_ci_cd_platform.Base.Dict.{Dict}

pub record PipelineStep : Type 0 where
  pub name : Str
  pub run : Str

pub record Resources : Type 0 where
  pub cpu : ℕ
  pub memory : Str

pub record PipelineJob : Type 0 where
  pub runtime : Str
  pub resources : Resources
  pub steps : List PipelineStep
  pub needs : List Str

pub record PipelineDependency : Type 0 where
  pub name : Str
  pub version : Str

pub record PipelineArtifact : Type 0 where
  pub name : Str
  pub version : Str
  pub path : Str

pub record Pipeline : Type 0 where
  pub name : Str
  pub version : Str
  pub dependencies : List PipelineDependency
  pub jobs : Dict PipelineJob
  pub artifacts : List PipelineArtifact

-- A job's dict: the key `needs` is there only if the job has needs.
pub record JobConfig : Type 0 where
  pub runtime : Str
  pub resources : Resources
  pub steps : List PipelineStep
  pub needs : Option (List Str)

pub record PipelineConfig : Type 0 where
  pub name : Str
  pub version : Str
  pub dependencies : List PipelineDependency
  pub jobs : Dict JobConfig
  pub artifacts : List PipelineArtifact

unfoldable pub job_to_dict : PipelineJob → JobConfig
job_to_dict job = record {
  runtime = job.runtime;
  resources = job.resources;
  steps = job.steps;
  needs = elim job.needs [ [] ↦ none | n ∷ ns ↦ some (n ∷ ns) ];
}

unfoldable pub to_dict : Pipeline → PipelineConfig
unfolding job_to_dict
to_dict p = record {
  name = p.name;
  version = p.version;
  dependencies = p.dependencies;
  jobs = map (λ (name, job). (name, job_to_dict job)) p.jobs;
  artifacts = p.artifacts;
}
